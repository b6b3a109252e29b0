-- ===== src/Plugin/NativeFunctions/First.antt =====
-- The first function registered under a name is the one that
-- src/playground/plugin/native_function_manager.cc keeps.
use playgroundjs_plugin.Common.{
  [], ◌++◌, ◌≡◌, if◌then◌else◌, none, take, Bool-cases, ◌==◌, bytes_eq, ◌-◌, inl, inr, ltb,
  Option-cases, refl, ◌&&◌, leb, true, false, arith, ◌+◌, suc, take_nil, bytes_eq_iff, sym, ap, ◌∙◌,
}
use playgroundjs_plugin.Plugin.NativeFunctions.{
  NativeInfo, find_function, Bytes, register_loop, Option, ℕ, List, store_function, function_exists,
  some, ◌∷◌, get_native_name, on_register_all, on_register,
}

-- The entries in front of the first null, under the names that they are stored by.
abbrev pub up_to_null : List NativeInfo → List (Bytes × ℕ)
up_to_null [] = []
up_to_null (info ∷ infos) = elim info.native_func [
  | none ↦ []
  | some func ↦ elim info.native_name [
    | none ↦ []
    | some name ↦ (get_native_name name, func) ∷ up_to_null infos
  ]
]

-- The entries that a call of `amx_Register` offers.
abbrev pub offered : ℕ × Option (List NativeInfo) → List (Bytes × ℕ)
offered (number, none) = []
offered (number, some infos) = up_to_null (if number == 0 then infos else take number infos)

abbrev pub offered_all : List (ℕ × Option (List NativeInfo)) → List (Bytes × ℕ)
offered_all [] = []
offered_all (call ∷ calls) = offered call ++ offered_all calls

or_else : Option ℕ → Option ℕ → Option ℕ
or_else none other = other
or_else (some f) other = some f

find-append :
    (name : Bytes) (fs gs : List (Bytes × ℕ))
    → find_function name (fs ++ gs) ≡ or_else (find_function name fs) (find_function name gs)
unfolding find_function or_else
find-append name [] gs = refl
find-append name (f ∷ fs) gs = elim (Bool-cases (bytes_eq name f.0)) [
  | inl same ↦ rw same refl
  | inr other ↦ rw other (find-append name fs gs)
]

or_else-none : (o : Option ℕ) → or_else o none ≡ o
unfolding or_else
or_else-none none = refl
or_else-none (some f) = refl

find-nil : (name : Bytes) → find_function name [] ≡ none
unfolding find_function
find-nil name = refl

store-free :
    (name : Bytes) (func : ℕ) (fs : List (Bytes × ℕ))
    → find_function name fs ≡ none
    → store_function name func fs ≡ (name, func) ∷ fs
unfolding store_function function_exists
store-free name func fs h = rw (h, function_exists) refl

store-taken :
    (name : Bytes) (func f : ℕ) (fs : List (Bytes × ℕ))
    → find_function name fs ≡ some f
    → store_function name func fs ≡ fs
unfolding store_function function_exists
store-taken name func f fs h = rw (h, function_exists) refl

find-same :
    (wanted name : Bytes) (func : ℕ) (gs : List (Bytes × ℕ))
    → bytes_eq wanted name ≡ true
    → find_function wanted ((name, func) ∷ gs) ≡ some func
unfolding find_function
find-same wanted name func gs h = rw h refl

find-other :
    (wanted name : Bytes) (func : ℕ) (gs : List (Bytes × ℕ))
    → bytes_eq wanted name ≡ false
    → find_function wanted ((name, func) ∷ gs) ≡ find_function wanted gs
unfolding find_function
find-other wanted name func gs h = rw h refl

find-store :
    (wanted name : Bytes) (func : ℕ) (fs gs : List (Bytes × ℕ))
    → or_else (find_function wanted (store_function name func fs)) (find_function wanted gs)
      ≡ or_else (find_function wanted fs) (find_function wanted ((name, func) ∷ gs))
unfolding or_else
find-store wanted name func fs gs = elim (Bool-cases (bytes_eq wanted name)) [
  | inl same ↦
      let e : wanted ≡ name = (bytes_eq_iff wanted name).0 same in
      elim (Option-cases (find_function name fs)) [
        | inl free ↦
            rw
              (
                store-free name func fs free,
                find-same wanted name func fs same,
                find-same wanted name func gs same,
                ap (λ n. find_function n fs) e ∙ free,
              )
              refl
        | inr (f, taken) ↦
            rw (store-taken name func f fs taken, ap (λ n. find_function n fs) e ∙ taken) refl
      ]
  | inr other ↦ elim (Option-cases (find_function name fs)) [
    | inl free ↦
        rw
          (
            store-free name func fs free,
            find-other wanted name func fs other,
            find-other wanted name func gs other,
          )
          refl
    | inr (f, taken) ↦
        rw (store-taken name func f fs taken, find-other wanted name func gs other) refl
  ]
]

-- The entries that the loop still looks at.
abbrev seen : ℕ → ℕ → List NativeInfo → List NativeInfo
seen number index infos = if number == 0 then infos else take (number - index) infos

seen-nil : (number index : ℕ) → seen number index [] ≡ []
seen-nil number index = elim (Bool-cases (number == 0)) [
  | inl all ↦ rw all refl
  | inr counted ↦ rw counted (take_nil NativeInfo (number - index))
]

seen-stop :
    (number index : ℕ) (infos : List NativeInfo)
    → (ltb 0 number && leb number index) ≡ true
    → seen number index infos ≡ []
seen-stop number index infos h =
    let gone : number - index ≡ 0 = ground arith in
    let counted : (number == 0) ≡ false = ground arith in rw (counted, gone) refl

seen-go :
    (number index : ℕ) (info : NativeInfo) (infos : List NativeInfo)
    → (ltb 0 number && leb number index) ≡ false
    → seen number index (info ∷ infos) ≡ info ∷ seen number (index + 1) infos
seen-go number index info infos h = elim (Bool-cases (number == 0)) [
  | inl all ↦ rw all refl
  | inr counted ↦
      let more : number - index ≡ suc (number - (index + 1)) = ground arith in
      rw (counted, more) refl
]

register_loop-first :
    (wanted : Bytes) (number index : ℕ) (infos : List NativeInfo) (fs : List (Bytes × ℕ))
    → find_function wanted (register_loop number index infos fs)
      ≡ or_else
          (find_function wanted fs)
          (find_function wanted (up_to_null (seen number index infos)))
unfolding register_loop
register_loop-first wanted number index [] fs =
    rw (seen-nil number index, find-nil wanted) (sym (or_else-none (find_function wanted fs)))
register_loop-first wanted number index (info ∷ infos) fs =
    elim (Bool-cases (ltb 0 number && leb number index)) [
      | inl stop ↦
          rw (stop, seen-stop number index (info ∷ infos) stop)
            (rw (find-nil wanted) (sym (or_else-none (find_function wanted fs))))
      | inr go ↦ elim (Option-cases info.native_func) [
        | inl null ↦
            rw (go, seen-go number index info infos go, null)
              (rw (find-nil wanted) (sym (or_else-none (find_function wanted fs))))
        | inr (func, f) ↦ elim (Option-cases info.native_name) [
          | inl null ↦
              rw (go, seen-go number index info infos go, f, null)
                (rw (find-nil wanted) (sym (or_else-none (find_function wanted fs))))
          | inr (name, g) ↦
              rw (go, seen-go number index info infos go, f, g)
                (register_loop-first wanted number (index + 1) infos
                    (store_function (get_native_name name) func fs)
                  ∙ find-store wanted (get_native_name name) func fs
                      (up_to_null (seen number (index + 1) infos)))
        ]
      ]
    ]

on_register-first :
    (wanted : Bytes) (call : ℕ × Option (List NativeInfo)) (fs : List (Bytes × ℕ))
    → find_function wanted (on_register call.0 call.1 fs)
      ≡ or_else (find_function wanted fs) (find_function wanted (offered call))
unfolding on_register
on_register-first wanted (number, none) fs =
    rw (find-nil wanted) (sym (or_else-none (find_function wanted fs)))
on_register-first wanted (number, some infos) fs =
    let whole : number - 0 ≡ number = omega arith in
    register_loop-first wanted number 0 infos fs
    ∙ ap
        (λ k.
          or_else (find_function wanted fs)
            (find_function wanted (up_to_null (if number == 0 then infos else take k infos))))
        whole

or_else_assoc : (a b c : Option ℕ) → or_else (or_else a b) c ≡ or_else a (or_else b c)
unfolding or_else
or_else_assoc none b c = refl
or_else_assoc (some f) b c = refl

on_register_all-or_else :
    (wanted : Bytes) (calls : List (ℕ × Option (List NativeInfo))) (fs : List (Bytes × ℕ))
    → find_function wanted (on_register_all calls fs)
      ≡ or_else (find_function wanted fs) (find_function wanted (offered_all calls))
unfolding on_register_all
on_register_all-or_else wanted [] fs =
    rw (find-nil wanted) (sym (or_else-none (find_function wanted fs)))
on_register_all-or_else wanted (call ∷ calls) fs =
    on_register_all-or_else wanted calls (on_register call.0 call.1 fs)
    ∙ ap (λ o. or_else o (find_function wanted (offered_all calls)))
        (on_register-first wanted call fs)
    ∙ or_else_assoc (find_function wanted fs) (find_function wanted (offered call))
        (find_function wanted (offered_all calls))
    ∙ ap (or_else (find_function wanted fs))
        (sym (find-append wanted (offered call) (offered_all calls)))

-- After any calls of `amx_Register`, the function found under a name is the first one that the
-- calls offered under it, in the order of the calls and of their entries; none if none did.
pub on_register_all-first :
    (wanted : Bytes) (calls : List (ℕ × Option (List NativeInfo)))
    → find_function wanted (on_register_all calls []) ≡ find_function wanted (offered_all calls)
on_register_all-first wanted calls =
    on_register_all-or_else wanted calls [] ∙ unfold or_else find_function in refl
