-- ===== src/Bindings.antt =====
-- The parts of src/playground/bindings: what the plugin offers to the scripts it runs.
pub mod Streamer
pub mod StreamerHost
pub mod Socket
pub mod Events
pub mod GlobalScope
pub mod ProvidedNatives
pub mod Promise
pub mod Timers
pub mod Exceptions
pub mod PawnInvoke
mod Tests
mod SocketTests
mod EventTests
mod ExceptionTests
mod InvokeTests
