-- ===== src/Plugin/CallbackManager.antt =====
-- src/playground/plugin/callback_manager.cc: calls of public functions of the gamemode.
pub mod Marshalling
pub mod IndexCache
pub mod Releases
pub mod Passed
pub mod Released
use playgroundjs_plugin.Common.{
  ℕ, none, Option, Bytes, [], Bool, find_text, get_or, List, some, true, length, false, ◌+◌,
  if◌then◌else◌, ◌∷◌, suc, ◌==◌, ◌++◌, put_text, ltb, ◌||◌, ◌&&◌, ◌-◌, zero,
}
use playgroundjs_plugin.Plugin.Values.{minus_one}

-- What `void* arguments[param]` points to, read as a cell, as a text, or as so many cells.
pub record PublicArgument : Type 0 where
  pub as_cell : ℕ
  pub as_text : Bytes
  pub as_cells : ℕ → List ℕ

-- What the functions of the AMX are called with: `amx_Push`, `amx_PushString`, `amx_PushArray`,
-- `amx_Exec`, and `amx_Release` with the address that the text or array of this number got; and the
-- constructor and destructor of `ScopedIgnore`, between which the hook of callbacks is inactive.
pub data AmxCall : Type 0 where
  pushed_cell : (value : ℕ) → AmxCall
  pushed_string : (text : Bytes) → AmxCall
  pushed_array : (cells : List ℕ) → AmxCall
  executed : (index : ℕ) → AmxCall
  released : (number : ℕ) → AmxCall
  ignore_begins ignore_ends : AmxCall

-- The gamemode: what `amx_FindPublic` finds, and the value that `amx_Exec` stores, if any, when
-- these calls have been made.
pub record Gamemode : Type 0 where
  pub find_public : Bytes → Option ℕ
  pub exec : List AmxCall → Option ℕ

-- `CallbackManager`, and the names with which `amx_FindPublic` has been called.
pub record CallbackManager : Type 0 where
  pub gamemode : Option Gamemode
  pub callback_index_cache : List (Bytes × ℕ)
  pub looked_up : List Bytes

abbrev pub new_manager : CallbackManager
new_manager = record { gamemode = none; callback_index_cache = []; looked_up = [] }

-- `OnGamemodeChanged`
unfoldable pub on_gamemode_changed : Option Gamemode → CallbackManager → CallbackManager
on_gamemode_changed gamemode m = record m { gamemode = gamemode; callback_index_cache = [] }

-- The index of the function, from the cache or the gamemode, and the manager with the cache.
unfoldable pub callback_index : Gamemode → Bytes → CallbackManager → Option ℕ × CallbackManager
callback_index gamemode name m = elim (find_text name m.callback_index_cache) [
  | some index ↦ (some index, m)
  | none ↦
      let asked = record m { looked_up = m.looked_up ++ (name ∷ []) } in
      elim (gamemode.find_public name) [
        | none ↦ (none, asked)
        | some index ↦ (
          some index,
          record asked { callback_index_cache = put_text name index m.callback_index_cache },
        )
      ]
]

-- The loop that looks for 'r'.
unfoldable pub has_reference : Bytes → Bool
has_reference [] = false
has_reference (c ∷ format) = c == 114 || has_reference format

-- `format[i]`, which is NUL behind the end.
abbrev pub format_at : Bytes → ℕ → ℕ
format_at format i = get_or format i 0

-- The `switch` for a parameter; `none` where it goes to `cleanup`.
unfoldable pub push_param : Bytes → (ℕ → PublicArgument) → ℕ → List AmxCall → Option (List AmxCall)
push_param format arguments param calls =
    let c = format_at format param in
    if c == 105 || c == 102
    then some (calls ++ (pushed_cell (arguments param).as_cell ∷ []))
    else if c == 115
    then some (calls ++ (pushed_string (arguments param).as_text ∷ []))
    else if c == 97
    then if format_at format (suc param) == 105
      then some (
          calls ++ (pushed_array ((arguments param).as_cells (arguments (suc param)).as_cell) ∷ []))
      else none
    else none

-- The loop over the parameters below the given number, from the last to the first.
unfoldable pub push_params : Bytes → (ℕ → PublicArgument) → ℕ → List AmxCall → Bool × List AmxCall
push_params format arguments zero calls = (true, calls)
push_params format arguments (suc param) calls =
    if ltb 0 param && format_at format param == 105 && format_at format (param - 1) == 97
    then push_params format arguments param calls
    else elim (push_param format arguments param calls) [
      | none ↦ (false, calls)
      | some pushed ↦ push_params format arguments param pushed
    ]

-- The cleanup: everything in `cleanup_list` is released.
unfoldable pub releases : ℕ → List AmxCall → List AmxCall
releases number [] = []
releases number (pushed_string text ∷ calls) = released number ∷ releases (number + 1) calls
releases number (pushed_array cells ∷ calls) = released number ∷ releases (number + 1) calls
releases number (_ ∷ calls) = releases number calls

-- From the push of the parameters on: the bits of the value returned, and the calls.
unfoldable pub invoke_public : Gamemode → ℕ → Bytes → (ℕ → PublicArgument) → ℕ × List AmxCall
invoke_public gamemode index format arguments =
    let pushed = push_params format arguments (length format) [] in
    if pushed.0
    then (let calls = pushed.1 ++ (ignore_begins ∷ executed index ∷ []) in
        (
          elim (gamemode.exec calls) [ none ↦ minus_one | some value ↦ value ],
          calls ++ (ignore_ends ∷ releases 0 calls),
        ))
    else (minus_one, pushed.1 ++ releases 0 (pushed.1))

-- `CallPublic` with a gamemode. A format that is null is an empty one.
unfoldable pub call_gamemode :
    Gamemode
    → Bytes
    → Bytes
    → (ℕ → PublicArgument)
    → CallbackManager
    → (ℕ × List AmxCall) × CallbackManager
call_gamemode gamemode name format arguments m =
    let found = callback_index gamemode name m in
    elim (found.0) [
      | none ↦ ((minus_one, []), found.1)
      | some index ↦
          if index == minus_one
          then ((minus_one, []), found.1)
          else if has_reference format
          then ((minus_one, []), found.1)
          else (invoke_public gamemode index format arguments, found.1)
    ]

-- `CallPublic`
unfoldable pub call_public :
    Bytes → Bytes → (ℕ → PublicArgument) → CallbackManager → (ℕ × List AmxCall) × CallbackManager
call_public name format arguments m = elim m.gamemode [
  | none ↦ ((minus_one, []), m)
  | some gamemode ↦ call_gamemode gamemode name format arguments m
]
