-- ===== src/Plugin/CallbackParser/Marks.antt =====
-- The flags that annotations set, by the annotations that a line mentions, in any order.
use playgroundjs_plugin.Plugin.Callback.{Callback, blank_callback}
use playgroundjs_plugin.Plugin.CallbackParser.{apply_annotation, apply_annotations}
use playgroundjs_plugin.Common.{
  List, Bytes, Bool, bytes_eq, ◌≡◌, false, true, ℕ, ◌||◌, ◌∷◌, codes, if◌then◌else◌, refl, ap, [],
  ◌∙◌, subst, Bool-cases, inl, sym, bytes_eq_iff, inr,
}

abbrev pub mentions : Bytes → List Bytes → Bool
mentions word [] = false
mentions word (annotation ∷ rest) = bytes_eq annotation word || mentions word rest

-- A callback with the flags of these annotations, besides its own.
abbrev pub marked_by : List Bytes → Callback → Callback
marked_by annotations callback = record callback {
  cancelable = callback.cancelable || mentions (codes "Cancelable") annotations;
  deferred = callback.deferred || mentions (codes "Deferred") annotations;
  return_value = if mentions (codes "ReturnOne") annotations then 1 else callback.return_value;
}

-- A callback with these flags.
abbrev flagged : Callback → Bool → Bool → ℕ → Callback
flagged callback cancelable deferred return_value = record callback {
  cancelable = cancelable;
  deferred = deferred;
  return_value = return_value;
}

reflagged :
    {c c' d d' : Bool} {r r' : ℕ} (callback : Callback)
    → c ≡ c'
    → d ≡ d'
    → r ≡ r'
    → flagged callback c d r ≡ flagged callback c' d' r'
reflagged callback e f g = rw (e, f, g) refl

or_false : (b : Bool) → b ≡ b || false
or_false true = refl
or_false false = refl

or_true : (b : Bool) → true ≡ b || true
or_true true = refl
or_true false = refl

or_join : (x y z : Bool) → (x || (y || false)) || z ≡ x || (y || z)
or_join true y z = refl
or_join false true z = refl
or_join false false z = refl

if_join :
    (x y : Bool) (r : ℕ)
    → (if y then 1 else (if x || false then 1 else r)) ≡ (if x || y then 1 else r)
if_join true true r = refl
if_join true false r = refl
if_join false y r = refl

apply_annotation-marked_by :
    (annotation : Bytes) (callback : Callback)
    → apply_annotation annotation callback ≡ marked_by (annotation ∷ []) callback
unfolding apply_annotation bytes_eq
apply_annotation-marked_by annotation callback =
    let c = callback.cancelable in
    let d = callback.deferred in
    let as_word = λ (word : Bytes).
      subst (λ w. apply_annotation w callback ≡ marked_by (w ∷ []) callback) {x = word}
        {y = annotation} in
    elim (Bool-cases (bytes_eq annotation (codes "Cancelable"))) [
      | inl e ↦
          as_word (codes "Cancelable") (sym ((bytes_eq_iff annotation (codes "Cancelable")).0 e))
            (reflagged callback (or_true c) (or_false d) refl)
      | inr not_cancelable ↦ elim (Bool-cases (bytes_eq annotation (codes "Deferred"))) [
        | inl e ↦
            as_word (codes "Deferred") (sym ((bytes_eq_iff annotation (codes "Deferred")).0 e))
              (reflagged callback (or_false c) (or_true d) refl)
        | inr not_deferred ↦ elim (Bool-cases (bytes_eq annotation (codes "ReturnOne"))) [
          | inl e ↦
              as_word (codes "ReturnOne") (sym ((bytes_eq_iff annotation (codes "ReturnOne")).0 e))
                (reflagged callback (or_false c) (or_false d) refl)
          | inr other ↦
              rw (not_cancelable, not_deferred, other)
                (reflagged callback (or_false c) (or_false d) refl)
        ]
      ]
    ]

apply_annotations-onto :
    (annotations : List Bytes) (callback : Callback)
    → apply_annotations annotations callback ≡ marked_by annotations callback
unfolding apply_annotations
apply_annotations-onto [] callback =
    reflagged callback (or_false callback.cancelable) (or_false callback.deferred) refl
apply_annotations-onto (a ∷ rest) callback =
    ap (apply_annotations rest) (apply_annotation-marked_by a callback)
    ∙ apply_annotations-onto rest (marked_by (a ∷ []) callback)
    ∙ reflagged callback
        (or_join callback.cancelable (bytes_eq a (codes "Cancelable"))
          (mentions (codes "Cancelable") rest))
        (or_join callback.deferred (bytes_eq a (codes "Deferred"))
          (mentions (codes "Deferred") rest))
        (if_join (bytes_eq a (codes "ReturnOne")) (mentions (codes "ReturnOne") rest)
          callback.return_value)

-- The flags that the parser sets one after another are those of the annotations mentioned.
pub apply_annotations-marked_by :
    (annotations : List Bytes)
    → apply_annotations annotations blank_callback ≡ marked_by annotations blank_callback
apply_annotations-marked_by annotations = apply_annotations-onto annotations blank_callback
