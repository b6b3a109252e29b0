-- ===== src/Plugin/NativeCalls/Filled.antt =====
-- What a function of the server is called with.
use playgroundjs_plugin.Plugin.Values.{minus_one}
use playgroundjs_plugin.Plugin.FakeAmx.{FakeAmx}
use playgroundjs_plugin.Common.{
  [], Bytes, List, ℕ, length, ◌<◌, Bool, ◌≡◌, suc, false, true, ◌==◌, get_elem?, ◌||◌, some, ◌*◌,
  ◌+◌, Option, ◌⊎◌, none, ◌≢◌, if◌then◌else◌,
}
use playgroundjs_plugin.Plugin.NativeCalls.{
  CallState, Progress, goes_on, refused, check_failed, push_native_params, NativeFunctionManager,
  ReadBack, is_polygon, array_size_offset,
}
use playgroundjs_plugin.Plugin.CallbackManager.{PublicArgument, format_at}

module _ (function : ℕ → List ℕ → FakeAmx → ℕ × FakeAmx) (set_string : Bytes → List ℕ)
    (get_string : List ℕ → ℕ → Bytes) (name format : Bytes) (arguments : ℕ → PublicArgument) where
  -- Whether the parameter at this position is an integer or a float.
  abbrev pub is_value : ℕ → Bool
  is_value j = format_at format j == 105 || format_at format j == 102

  -- The parameters below `i` are filled: their size in bytes stands in front, and each integer and
  -- float has the value of its argument, the sizes of arrays among them.
  pub record IsFilled (i : ℕ) (values : List ℕ) : Type 0 where
    pub whole : length values ≡ suc (length format)
    pub header : get_elem? values 0 ≡ some (length format * 4)
    pub filled :
        (j : ℕ) → j < i → is_value j ≡ true → get_elem? values (suc j) ≡ some (arguments j).as_cell

  -- How far behind an array its size is.
  abbrev pub offset_at : ℕ → ℕ
  offset_at i = if is_polygon name then (if i == 0 then 3 else 4) else array_size_offset name

  -- The offset of a function that is not the one for polygons is its own all the time.
  abbrev HasOffset : CallState → Type 0
  HasOffset state = is_polygon name ≡ false → state.offset ≡ array_size_offset name

  -- An array of the format has no integer at the place of its size, which refuses the call; or it
  -- has one, and the argument there is zero, which fails the check.
  abbrev pub HasLoneArray : Type 0
  HasLoneArray =
      (i : ℕ) × (i < length format)
      × (format_at format i ≡ 97)
      × (format_at format (i + offset_at i) ≢ 105)

  abbrev pub HasEmptyArray : Type 0
  HasEmptyArray =
      (i : ℕ) × (i < length format)
      × (format_at format i ≡ 97)
      × (format_at format (i + offset_at i) ≡ 105)
      × ((arguments (i + offset_at i)).as_cell ≡ 0)

  -- What goes on from a position does so further on, with the parameters below filled; the rest has
  -- its reason.
  abbrev pub IsReady : ℕ → Progress → Type 0
  IsReady i (goes_on position state) =
      (i < position) × IsFilled position state.values × HasOffset state
  IsReady i (refused state) = HasLoneArray
  IsReady i check_failed = HasEmptyArray

  -- As above, with all parameters done.
  abbrev IsDone : Progress → Type 0
  IsDone (goes_on position state) = IsFilled (length format) state.values
  IsDone (refused state) = HasLoneArray
  IsDone check_failed = HasEmptyArray

  abbrev run_params : ℕ → ℕ → CallState → Progress
  run_params = push_native_params function set_string get_string name format arguments

  -- What becomes of a call: the process ends at a check for an array without cells, the call is
  -- refused with -1 and nothing read back for an array without its size, or the function is called,
  -- once, with all parameters filled, and its value is returned.
  abbrev pub IsCalled : ℕ → Option ((ℕ × List ReadBack) × NativeFunctionManager) → Type 0
  IsCalled func none = HasEmptyArray
  IsCalled func (some ((returned, back), after)) =
      (HasLoneArray × (returned ≡ minus_one) × (back ≡ []))
      ⊎ ((state : CallState) × IsFilled (length format) state.values
          × (returned ≡ (function func state.values state.amx).0)
          × (after.params ≡ state.values))
