-- ===== src/Plugin/CallbackHook.antt =====
-- src/playground/plugin/callback_hook.cc: what happens when the server executes a public function
-- of the gamemode. The delegate is a parameter: whether it handles a callback, as a function of
-- what it is told.
pub mod Interception
pub mod Extraction
use playgroundjs_plugin.Plugin.Callback.{
  Callback, CallbackArgumentType, type_int, type_float, type_string,
}
use playgroundjs_plugin.Plugin.Amx.{Amx, read_from_stack, read_array_from_amx, read_string_from_amx}
use playgroundjs_plugin.Plugin.Values.{Arguments, add_integer, add_float, add_array, add_string}
use playgroundjs_plugin.Plugin.CallbackParser.{find as find_callback}
use playgroundjs_plugin.Common.{
  [], ℕ, Bytes, Bool, Option, List, true, none, find_id, put_id, ◌∷◌, bytes_eq, ◌++◌, if◌then◌else◌,
  ◌&&◌, some, false, suc, ◌==◌, ◌+◌, codes, ltb, length, not, zero,
}

-- The `index` of `amx_Exec`: AMX_EXEC_MAIN, AMX_EXEC_CONT, or a public function.
pub data ExecIndex : Type 0 where
  exec_main exec_cont : ExecIndex
  exec_public : (index : ℕ) → ExecIndex

abbrev pub same_index : ExecIndex → ExecIndex → Bool
same_index exec_main exec_main = true
same_index exec_cont exec_cont = true
same_index (exec_public i) (exec_public j) = i == j
same_index _ _ = false

-- What the delegate is told, in order, and the end of the process at a check that fails, behind
-- which nothing is told.
pub data HookEvent : Type 0 where
  callback_intercepted : (name : Bytes) (arguments : Arguments) (deferred : Bool) → HookEvent
  player_updated : (player_id : ℕ) → HookEvent
  gamemode_changed : (identity : ℕ) → HookEvent
  process_ended : HookEvent

-- `CallbackHook`, with `g_ignore_depth`. The constructor sets `on_player_update_index` to -2, which
-- is AMX_EXEC_CONT.
pub record CallbackHook : Type 0 where
  pub callbacks : List Callback
  pub gamemode : Option ℕ
  pub on_player_update_index : ExecIndex
  pub intercept_indices : List (ℕ × Callback)
  pub array_buffer : List ℕ
  pub ignore_depth : ℕ
  pub told : List HookEvent

abbrev pub new_hook : List Callback → CallbackHook
new_hook callbacks = record {
  callbacks = callbacks;
  gamemode = none;
  on_player_update_index = exec_cont;
  intercept_indices = [];
  array_buffer = [];
  ignore_depth = 0;
  told = [];
}

-- One round of the loop of `OnGamemodeLoaded` for a public function that could be read.
unfoldable pub load_public : ℕ → Bytes → CallbackHook → CallbackHook
load_public index callback_name h =
    let updated =
      if bytes_eq callback_name (codes "OnPlayerUpdate")
      then record h { on_player_update_index = exec_public index }
      else h in
    elim (find_callback callback_name updated.callbacks) [
      | none ↦ updated
      | some callback ↦ record updated {
        intercept_indices = put_id index callback updated.intercept_indices;
      }
    ]

-- The loop from `index` on, with so many public functions left. `none` where it returns early.
unfoldable pub load_publics : Amx → ℕ → ℕ → CallbackHook → Bool × CallbackHook
load_publics amx index zero h = (true, h)
load_publics amx index (suc left) h = elim (amx.get_public index) [
  | none ↦ (false, h)
  | some callback_name ↦ load_publics amx (index + 1) left (load_public index callback_name h)
]

-- What `OnGamemodeLoaded` does behind the loop. A second gamemode fails the check that there is
-- none.
unfoldable pub install_gamemode : Amx → CallbackHook → CallbackHook
install_gamemode amx h = elim h.gamemode [
  | none ↦ record h {
    told = h.told ++ (gamemode_changed amx.identity ∷ []);
    gamemode = some amx.identity;
  }
  | some earlier ↦ record h {
    told = h.told ++ (gamemode_changed amx.identity ∷ process_ended ∷ []);
  }
]

-- `OnGamemodeLoaded`
unfoldable pub on_gamemode_loaded : Amx → CallbackHook → CallbackHook
on_gamemode_loaded amx h = elim amx.num_publics [
  | none ↦ h
  | some public_count ↦
      let loaded = load_publics amx 0 public_count h in
      if loaded.0 then install_gamemode amx loaded.1 else loaded.1
]

-- The loop of `DoIntercept` over the arguments: the size for "content" so far, the values so far
-- and the array buffer.
pub record Extracted : Type 0 where
  pub memory_read_size : ℕ
  pub values : Arguments
  pub buffer : List ℕ

-- The `switch` over the type of an argument.
unfoldable pub extract_typed : Amx → ℕ → Bytes × CallbackArgumentType → Arguments → Arguments
extract_typed amx index (name, type_int) values =
    add_integer name (read_from_stack amx index) values
extract_typed amx index (name, type_float) values =
    add_float name (read_from_stack amx index) values
extract_typed amx index (name, type_string) values =
    add_string name (read_string_from_amx amx (read_from_stack amx index)) values

-- One round of the loop.
unfoldable pub extract_argument :
    Amx → Bool → ℕ → Bytes × CallbackArgumentType → Extracted → Extracted
extract_argument amx is_memory_read index argument e =
    if is_memory_read && bytes_eq argument.0 (codes "size")
    then record e {
      memory_read_size = read_from_stack amx index;
      values = extract_typed amx index argument e.values;
    }
    else if is_memory_read && bytes_eq argument.0 (codes "content")
    then (let cells =
          read_array_from_amx amx (read_from_stack amx index) e.memory_read_size e.buffer in
        record e { values = add_array argument.0 cells e.values; buffer = cells })
    else record e { values = extract_typed amx index argument e.values }

unfoldable pub extract_arguments :
    Amx → Bool → ℕ → List (Bytes × CallbackArgumentType) → Extracted → Extracted
extract_arguments amx is_memory_read index [] e = e
extract_arguments amx is_memory_read index (argument ∷ arguments) e =
    extract_arguments amx is_memory_read (index + 1) arguments
      (extract_argument amx is_memory_read index argument e)

-- The values that `DoIntercept` hands to the delegate, and the buffer.
unfoldable pub intercepted_arguments : Amx → Callback → List ℕ → Extracted
intercepted_arguments amx callback buffer =
    extract_arguments amx (bytes_eq callback.name (codes "CAC_OnMemoryRead")) 0 callback.arguments
      (record { memory_read_size = 0; values = []; buffer = buffer })

-- What `OnExecute` returns: it forwards to the original `amx_Exec`, or it answers, with the value
-- that it stores in `*retval` if that is not null.
pub data Execution : Type 0 where
  forwarded : Execution
  answered : (retval : Option ℕ) → Execution

-- `gamemode_ == amx`
unfoldable pub is_gamemode : Amx → CallbackHook → Bool
is_gamemode amx h = elim h.gamemode [ none ↦ false | some identity ↦ identity == amx.identity ]

module _ (delegate : Bytes → Arguments → Bool → Bool) where
  -- `DoIntercept`, for a `retval` that may be null: the value stored if it returns true.
  unfoldable pub do_intercept : Amx → Bool → Callback → CallbackHook → Execution × CallbackHook
  do_intercept amx has_retval callback h =
      if ltb amx.paramcount (length callback.arguments)
      then (forwarded, h)
      else let extracted = intercepted_arguments amx callback h.array_buffer in
        let told = record h {
          array_buffer = extracted.buffer;
          told =
              h.told
              ++ (callback_intercepted callback.name extracted.values callback.deferred ∷ []);
        } in
        if delegate callback.name extracted.values callback.deferred
        then (answered (if has_retval then some callback.return_value else none), told)
        else (forwarded, told)

  -- `DoInterceptPlayerUpdate`
  unfoldable pub do_intercept_player_update : Amx → CallbackHook → CallbackHook
  do_intercept_player_update amx h = record h {
    told = h.told ++ (player_updated (read_from_stack amx 0) ∷ []);
  }

  -- The branch of `OnExecute` for the gamemode.
  unfoldable pub execute_public : Amx → Bool → ExecIndex → CallbackHook → Execution × CallbackHook
  execute_public amx has_retval exec_main h = (forwarded, h)
  execute_public amx has_retval exec_cont h = (forwarded, h)
  execute_public amx has_retval (exec_public index) h = elim (find_id index h.intercept_indices) [
    | none ↦ (forwarded, h)
    | some callback ↦ do_intercept amx has_retval callback h
  ]

  -- `OnExecute`
  unfoldable pub on_execute : Amx → Bool → ExecIndex → CallbackHook → Execution × CallbackHook
  on_execute amx has_retval index h =
      if ltb 0 h.ignore_depth
      then (forwarded, h)
      else if same_index index exec_main
      then (forwarded, on_gamemode_loaded amx h)
      else if is_gamemode amx h
      then if not (same_index index h.on_player_update_index)
        then execute_public amx has_retval index h
        else (forwarded, do_intercept_player_update amx h)
      else (forwarded, h)
