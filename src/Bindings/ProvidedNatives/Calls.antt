-- ===== src/Bindings/ProvidedNatives/Calls.antt =====
-- The registry of natives that scripts provide, and what their calls give.
use playgroundjs_plugin.Plugin.NativeParameters.{NativeParameters, count}
use playgroundjs_plugin.Bindings.ProvidedNatives.Answers.{
  IsStored, use_returned_lem, promised_answer, arguments_from, param_count_le, read_arguments_lem,
  length-arguments_from,
}
use playgroundjs_plugin.Bindings.ProvidedNatives.{
  ProvidedNatives, set_natives, register, StoredNative, no_natives, NativeArgument, is_known,
  Returned, call_native, call, count_signature,
}
use playgroundjs_plugin.Common.{
  ◌∷◌, ℕ, List, Bytes, Bool-cases, bytes_eq, find_text, some_absurd, put_text, inr, ◌≡◌, sym, inl,
  find_text_nil, some, subst, length, ◌∙◌, Option-cases, some_inj, ◌≤◌, refl, none, [], arith,
  ==_refl, find_text-put_same, find_text-put_ne,
}

-- Every native that is found has right counts.
abbrev pub IsRegistry : ProvidedNatives → Type 0
IsRegistry p =
    (name : Bytes) (native : StoredNative)
    → find_text name p.native_handlers ≡ some native
    → IsStored native

module _ (function : ℕ → List NativeArgument → Returned) where
  call_native_lem :
      (native : StoredNative) (params : NativeParameters)
      → IsStored native
      → length native.signature ≤ count params
      → call_native function native params
        ≡ some (
            promised_answer params native
              (function native.reference (arguments_from params 0 native.signature)))
  unfolding call_native
  call_native_lem native params stored h =
      let counts = param_count_le native params stored h in
      rw
        (
          counts.0,
          call_native,
          read_arguments_lem params 0 native.signature (omega arith),
          length-arguments_from params 0 native.signature ∙ sym counts.1,
          ==_refl native.param_count,
        )
        (use_returned_lem params native
          (function native.reference (arguments_from params 0 native.signature)) h)

stored-IsRegistry :
    (name : Bytes) (native : StoredNative) (p : ProvidedNatives)
    → IsStored native
    → IsRegistry p
    → IsRegistry (record p { native_handlers = put_text name native p.native_handlers })
stored-IsRegistry name native p stored h other found e = elim (Bool-cases (bytes_eq other name)) [
  | inl same ↦
      subst IsStored
        (some_inj (sym (find_text-put_same other name native p.native_handlers same) ∙ e)) stored
  | inr differs ↦
      h other found (sym (find_text-put_ne other name native p.native_handlers differs) ∙ e)
]

register-IsRegistry :
    (name signature : Bytes) (fn : ℕ) (p : ProvidedNatives)
    → IsRegistry p
    → IsRegistry (register name signature fn p).1
unfolding register
register-IsRegistry name signature fn p h = elim (Bool-cases (is_known name p.known_natives)) [
  | inr unknown ↦ rw (unknown, register) h
  | inl known ↦ elim (Option-cases (count_signature signature (0, 0))) [
    | inl e ↦ rw (known, register, e) h
    | inr (counts, e) ↦ rw (known, register, e) (stored-IsRegistry name _ p e h)
  ]
]

-- The natives that scripts provide, one after another.
abbrev pub offer_all : List (Bytes × Bytes × ℕ) → ProvidedNatives → ProvidedNatives
offer_all [] p = p
offer_all ((name, signature, fn) ∷ offers) p = offer_all offers (register name signature fn p).1

offer_all-IsRegistry :
    (offers : List (Bytes × Bytes × ℕ)) (p : ProvidedNatives)
    → IsRegistry p
    → IsRegistry (offer_all offers p)
offer_all-IsRegistry [] p h = h
offer_all-IsRegistry ((name, signature, fn) ∷ offers) p h =
    offer_all-IsRegistry offers (register name signature fn p).1
      (register-IsRegistry name signature fn p h)

set_natives-IsRegistry : (natives : List Bytes) → IsRegistry (set_natives natives no_natives)
unfolding set_natives
set_natives-IsRegistry natives name native e = some_absurd (sym (find_text_nil name) ∙ e)

-- The registry once the natives of the configuration are set and scripts have provided some.
abbrev pub registry_of : List Bytes → List (Bytes × Bytes × ℕ) → ProvidedNatives
registry_of natives offers = offer_all offers (set_natives natives no_natives)

module _ (function : ℕ → List NativeArgument → Returned) where
  -- A call by the gamemode of a native that a script provides, with at least as many parameters as
  -- the signature has characters, gets past every check. The script's function is given the
  -- parameters at the places of 'f', 'i' and 's' of the signature, in order. Without references in
  -- the signature, the gamemode gets the integer returned, 0 where the function threw and 1 for
  -- anything else. With references, it gets 1, and each element of the array returned is written to
  -- the address at its place, with -1 or the empty text for an element of another type; or -1, with
  -- nothing written, for what is not an array of as many elements. A native that no script provides
  -- gives 0.
  pub call-answers :
      (natives : List Bytes) (offers : List (Bytes × Bytes × ℕ)) (name : Bytes)
      (params : NativeParameters)
      → ((native : StoredNative)
          → find_text name (registry_of natives offers).native_handlers ≡ some native
          → length native.signature ≤ count params)
      → call function name params (registry_of natives offers)
        ≡ elim (find_text name (registry_of natives offers).native_handlers) [
          | none ↦ some (0, [])
          | some native ↦ some (
              promised_answer params native
                (function native.reference (arguments_from params 0 native.signature)))
        ]
  unfolding call
  call-answers natives offers name params enough =
      elim (Option-cases (find_text name (registry_of natives offers).native_handlers)) [
        | inl e ↦ rw (e, call) refl
        | inr (native, e) ↦
            rw (e, call)
              (call_native_lem function native params
                (offer_all-IsRegistry offers (set_natives natives no_natives)
                  (set_natives-IsRegistry natives) name native e)
                (enough native e))
      ]
