-- ===== src/Plugin.antt =====
-- The parts of src/playground/plugin: the parsers of the configuration files, and the calls
-- between the SA-MP server's Pawn interpreter and the plugin.
pub mod Trim
pub mod Callback
pub mod Solid
pub mod Lines
pub mod NativeParser
pub mod NativeFunctions
pub mod FakeAmx
pub mod CallbackParser
pub mod Values
pub mod Amx
pub mod NativeParameters
pub mod CallbackHook
pub mod CallbackManager
pub mod Controller
pub mod NativeCalls
mod Tests
mod CallTests
mod NativeCallTests
