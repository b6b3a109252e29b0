-- ===== src/Plugin/NativeCalls/Restored.antt =====
-- The heap of the fake AMX from call to call.
use playgroundjs_plugin.Plugin.Values.{minus_one}
use playgroundjs_plugin.Plugin.NativeFunctions.{find_function}
use playgroundjs_plugin.Plugin.FakeAmx.{FakeAmx, restore}
use playgroundjs_plugin.Common.{
  [], ℕ, Bytes, List, ◌≡◌, Option, some, Bool-cases, none, length, ◌==◌, inl, inr, refl, ap, ◌∷◌,
  some_absurd, ◌∙◌, sym, some_inj,
}
use playgroundjs_plugin.Plugin.NativeCalls.{
  Progress, NativeFunctionManager, call_found, call_native_function, push_native_params, ReadBack,
  first_state, finish_call, goes_on, refused, check_failed,
}
use playgroundjs_plugin.Plugin.CallbackManager.{PublicArgument}

-- A call of a function with a format and arguments.
abbrev pub NativeCall : Type 0
NativeCall = Bytes × Bytes × (ℕ → PublicArgument)

module _ (function : ℕ → List ℕ → FakeAmx → ℕ × FakeAmx) (set_string : Bytes → List ℕ)
    (get_string : List ℕ → ℕ → Bytes) where
  -- One call after another, up to the end of the process.
  abbrev pub call_every : List NativeCall → NativeFunctionManager → Option NativeFunctionManager
  call_every [] m = some m
  call_every (call ∷ calls) m =
      elim (call_native_function function set_string get_string call.0 call.1 call.2 m) [
        | none ↦ none
        | some (result, after) ↦ call_every calls after
      ]

  -- The heap pointer is where it was, and the functions are those that were known.
  abbrev pub IsRestored : NativeFunctionManager → NativeFunctionManager → Type 0
  IsRestored before after =
      (after.fake_amx.hea ≡ before.fake_amx.hea)
      × (after.native_functions ≡ before.native_functions)

  abbrev IsRestoredBy :
      NativeFunctionManager → Option ((ℕ × List ReadBack) × NativeFunctionManager) → Type 0
  IsRestoredBy before none = Unit
  IsRestoredBy before (some (result, after)) = IsRestored before after

  module _
      (keeps : (func : ℕ) (values : List ℕ) (amx : FakeAmx)
        → (function func values amx).1.hea ≡ amx.hea) where
    finish_call-IsRestored :
        (name format : Bytes) (arguments : ℕ → PublicArgument) (func : ℕ)
        (m : NativeFunctionManager) (progress : Progress)
        → IsRestoredBy m
            (finish_call function set_string get_string name format arguments func m progress)
    unfolding finish_call restore
    finish_call-IsRestored name format arguments func m (goes_on position state) = (refl, refl)
    finish_call-IsRestored name format arguments func m (refused state) = (refl, refl)
    finish_call-IsRestored name format arguments func m check_failed = tt

    call_found-IsRestored :
        (name format : Bytes) (arguments : ℕ → PublicArgument) (func : ℕ)
        (m : NativeFunctionManager)
        → IsRestoredBy m (call_found function set_string get_string name format arguments func m)
    unfolding call_found
    call_found-IsRestored name format arguments func m =
        let start = first_state function set_string get_string name format arguments m in
        elim (Bool-cases (length format == 0)) [
          | inl empty ↦ rw empty (keeps func start.values m.fake_amx, refl)
          | inr more ↦ rw more (
              finish_call-IsRestored name format arguments func m (
                push_native_params function set_string get_string name format arguments
                  (length format) 0 start))
        ]

    looked_up-IsRestored :
        (name format : Bytes) (arguments : ℕ → PublicArgument) (m : NativeFunctionManager)
        (found : Option ℕ)
        → IsRestoredBy m (elim found [
          | none ↦ some ((minus_one, []), m)
          | some func ↦ call_found function set_string get_string name format arguments func m
        ])
    looked_up-IsRestored name format arguments m none = (refl, refl)
    looked_up-IsRestored name format arguments m (some func) =
        call_found-IsRestored name format arguments func m

    call-IsRestored :
        (name format : Bytes) (arguments : ℕ → PublicArgument) (m : NativeFunctionManager)
        → IsRestoredBy m
            (call_native_function function set_string get_string name format arguments m)
    unfolding call_native_function
    call-IsRestored name format arguments m =
        looked_up-IsRestored name format arguments m (find_function name m.native_functions)

    next-IsRestored :
        (calls : List NativeCall) (before after : NativeFunctionManager)
        (called : Option ((ℕ × List ReadBack) × NativeFunctionManager))
        → IsRestoredBy before called
        → ((m : NativeFunctionManager) → call_every calls m ≡ some after → IsRestored m after)
        → elim called [ none ↦ none | some (result, m) ↦ call_every calls m ] ≡ some after
        → IsRestored before after
    next-IsRestored calls before after none restored behind e = some_absurd e
    next-IsRestored calls before after (some (result, m)) restored behind e =
        ((behind m e).0 ∙ restored.0, (behind m e).1 ∙ restored.1)

    -- If the functions of the server leave the heap pointer as they find it, then after any calls,
    -- whatever their functions, formats and arguments, it is where it was before them: what a call
    -- pushes is given up again, also where the call is refused. The known functions stay.
    pub call_every-IsRestored :
        (calls : List NativeCall) (before after : NativeFunctionManager)
        → call_every calls before ≡ some after
        → IsRestored before after
    call_every-IsRestored [] before after e = (
      ap (λ m. m.fake_amx.hea) (sym (some_inj e)),
      ap (λ m. m.native_functions) (sym (some_inj e)),
    )
    call_every-IsRestored (call ∷ calls) before after e =
        next-IsRestored calls before after
          (call_native_function function set_string get_string call.0 call.1 call.2 before)
          (call-IsRestored call.0 call.1 call.2 before)
          (λ m behind. call_every-IsRestored calls m after behind) e
