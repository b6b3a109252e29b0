-- ===== src/Plugin/Controller.antt =====
-- src/playground/plugin/plugin_controller.cc, with what src/playground/playground_controller.cc
-- does with the output of scripts. Times are in milliseconds. `toAnsi` and the calls of native
-- functions are parameters.
pub mod Output
pub mod Minimized
use playgroundjs_plugin.Common.{
  ℕ, [], Option, Bytes, List, ◌∷◌, suc, if◌then◌else◌, ◌++◌, put_id, Bool, none, length, ltb, some,
  ◌==◌, find_id, ◌+◌, ◌&&◌, true, leb, take, get_or, drop, ◌-◌, zero,
}
use playgroundjs_plugin.Plugin.CallbackManager.{
  CallbackManager, Gamemode, PublicArgument, AmxCall, on_gamemode_changed, call_public, new_manager,
}

-- `kLogLimit` and `kIdleThresholdMs`
abbrev pub log_limit : ℕ
log_limit = 2048

abbrev pub idle_threshold_ms : ℕ
idle_threshold_ms = 1000

-- `PluginController`, with the texts that `logprintf` was called with and how often the delegate
-- was told that a gamemode was loaded.
pub record PluginController : Type 0 where
  pub callback_manager : CallbackManager
  pub player_update_time : List (ℕ × ℕ)
  pub printed : List Bytes
  pub gamemodes_loaded : ℕ

abbrev pub new_controller : PluginController
new_controller = record {
  callback_manager = new_manager;
  player_update_time = [];
  printed = [];
  gamemodes_loaded = 0;
}

-- What `logprintf` sees of a text: what is before the first NUL.
unfoldable pub c_string : Bytes → Bytes
c_string [] = []
c_string (c ∷ text) = let rest = c_string text in if c == 0 then [] else c ∷ rest

unfoldable pub logprintf : Bytes → PluginController → PluginController
logprintf text p = record p { printed = p.printed ++ (c_string text ∷ []) }

-- The loop of `Output` from `offset` on, on fuel.
unfoldable pub output_loop : ℕ → ℕ → Bytes → PluginController → PluginController
output_loop zero offset message p = p
output_loop (suc fuel) offset message p =
    if ltb offset (length message)
    then output_loop fuel (offset + log_limit) message
        (logprintf (take log_limit (drop offset message)) p)
    else p

-- `Output`
unfoldable pub output : Bytes → PluginController → PluginController
output message p =
    if ltb (length message) log_limit
    then logprintf message p
    else output_loop (length message + 1) 0 message p

-- `IsPlayerMinimized`
unfoldable pub is_player_minimized : ℕ → ℕ → PluginController → Bool
is_player_minimized player_id current_time p = elim (find_id player_id p.player_update_time) [
  | none ↦ true
  | some last_update ↦ leb idle_threshold_ms (current_time - last_update)
]

-- `OnPlayerUpdate`, at a time.
unfoldable pub on_player_update : ℕ → ℕ → PluginController → PluginController
on_player_update player_id time p = record p {
  player_update_time = put_id player_id time p.player_update_time;
}

-- `OnGamemodeChanged`
unfoldable pub controller_gamemode_changed : Option Gamemode → PluginController → PluginController
controller_gamemode_changed gamemode p =
    let changed = record p { callback_manager = on_gamemode_changed gamemode p.callback_manager } in
    elim gamemode [
      | none ↦ changed
      | some loaded ↦ record changed { gamemodes_loaded = p.gamemodes_loaded + 1 }
    ]

-- Whether `CallFunction` takes a name for that of a public function.
unfoldable pub is_public_name : Bytes → Bool
is_public_name name = ltb 2 (length name) && get_or name 0 0 == 79 && get_or name 1 0 == 110

-- `CallFunction`: the value returned, with what a call of a public function asks of the AMX.
unfoldable pub call_function :
    (Bytes → Bytes → (ℕ → PublicArgument) → ℕ)
    → Bytes
    → Bytes
    → (ℕ → PublicArgument)
    → PluginController
    → (ℕ × List AmxCall) × PluginController
call_function native name format arguments p =
    if is_public_name name
    then (let called = call_public name format arguments p.callback_manager in
        (called.0, record p { callback_manager = called.1 }))
    else ((native name format arguments, []), p)

-- `OnScriptOutput`
unfoldable pub on_script_output : (Bytes → Bytes) → Bytes → PluginController → PluginController
on_script_output to_ansi message p = if length message == 0 then p else output (to_ansi message) p
