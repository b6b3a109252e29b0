-- ===== src/Common/IdMap.antt =====
-- `std::unordered_map` with ids as keys: an association list in which a key stands once.
use Prim.Native.Nat.{ℕ}
use mathlib.Core.Path.{◌≡◌, refl, sym, ap, ◌∙◌, subst}
use mathlib.Core.Logic.{◌≢◌, inl, inr}
use mathlib.Core.Option.{Option, none, some}
use mathlib.Core.Option
use mathlib.Core.List.{List, [], ◌∷◌}
use native.Mathlib.Decide.{ℕ_discrete}
use native.Mathlib.Omega.{arith}
use playgroundjs_plugin.Common.Tests.{◌==◌, if◌then◌else◌, Option-cases, some_inj, some_absurd}

module _ {ℓ} {V : Type ℓ} where
  -- `find`
  unfoldable pub find_id : ℕ → List (ℕ × V) → Option V
  find_id k [] = none
  find_id k (e ∷ rest) = let behind = find_id k rest in if k == e.0 then some e.1 else behind

  -- `insert`: a key that is there keeps its value.
  unfoldable pub insert_new : ℕ → V → List (ℕ × V) → List (ℕ × V)
  insert_new k v m = elim (find_id k m) [ none ↦ (k, v) ∷ m | some old ↦ m ]

  -- `erase`
  unfoldable pub erase_key : ℕ → List (ℕ × V) → List (ℕ × V)
  erase_key k [] = []
  erase_key k (e ∷ rest) = let behind = erase_key k rest in if k == e.0 then behind else e ∷ behind

  -- Assignment through the iterator of a key that is there.
  unfoldable pub update_id : ℕ → (V → V) → List (ℕ × V) → List (ℕ × V)
  update_id k f [] = []
  update_id k f (e ∷ rest) =
      let behind = update_id k f rest in if k == e.0 then (e.0, f e.1) ∷ rest else e ∷ behind

  -- `m[k] = v`
  unfoldable pub put_id : ℕ → V → List (ℕ × V) → List (ℕ × V)
  put_id k v [] = (k, v) ∷ []
  put_id k v (e ∷ m) = let behind = put_id k v m in if k == e.0 then (k, v) ∷ m else e ∷ behind

  pub find_id-put :
      (j k : ℕ) (v : V) (m : List (ℕ × V))
      → find_id j (put_id k v m) ≡ (if j == k then some v else find_id j m)
  unfolding find_id put_id
  find_id-put j k v [] = ground arith
  find_id-put j k v (e ∷ m) = ground (arith, find_id-put j k v m)

  pub find_id_nil : (k : ℕ) → find_id k [] ≡ none
  unfolding find_id
  find_id_nil k = refl

  pub find_id-insert_new_self :
      (k : ℕ) (v : V) (m : List (ℕ × V))
      → find_id k m ≡ none
      → find_id k (insert_new k v m) ≡ some v
  unfolding find_id insert_new
  find_id-insert_new_self k v m h = ground arith

  pub insert_new-found :
      (k : ℕ) (v o : V) (m : List (ℕ × V)) → find_id k m ≡ some o → insert_new k v m ≡ m
  unfolding insert_new
  insert_new-found k v o m h = ground arith

  pub find_id-insert_new_ne :
      (k j : ℕ) (v : V) (m : List (ℕ × V)) → j ≢ k → find_id j (insert_new k v m) ≡ find_id j m
  unfolding find_id insert_new
  find_id-insert_new_ne k j v m h = elim (Option-cases (find_id k m)) [
    | inl n ↦ ground arith
    | inr (o, s) ↦ ground arith
  ]

  pub find_id-erase_self : (k : ℕ) (m : List (ℕ × V)) → find_id k (erase_key k m) ≡ none
  unfolding find_id erase_key
  find_id-erase_self k [] = refl
  find_id-erase_self k (e ∷ m) = ground (arith, find_id-erase_self k m)

  pub find_id-erase_ne :
      (k j : ℕ) (m : List (ℕ × V)) → j ≢ k → find_id j (erase_key k m) ≡ find_id j m
  unfolding find_id erase_key
  find_id-erase_ne k j [] h = refl
  find_id-erase_ne k j (e ∷ m) h = ground (arith, find_id-erase_ne k j m h)

  pub find_id-update_ne :
      (k j : ℕ) (f : V → V) (m : List (ℕ × V)) → j ≢ k → find_id j (update_id k f m) ≡ find_id j m
  unfolding find_id update_id
  find_id-update_ne k j f [] h = refl
  find_id-update_ne k j f (e ∷ m) h = ground (arith, find_id-update_ne k j f m h)

  pub find_id-update_self :
      (k : ℕ) (f : V → V) (m : List (ℕ × V))
      → find_id k (update_id k f m) ≡ Option.map f (find_id k m)
  unfolding find_id update_id
  find_id-update_self k f [] = refl
  find_id-update_self k f (e ∷ m) = ground (arith, find_id-update_self k f m)

-- What holds of each value that can be found.
module _ {ℓ κ} {V : Type ℓ} (P : V → Type κ) where
  abbrev pub AllFound : List (ℕ × V) → Type (ℓ ⊔ κ)
  AllFound m = (k : ℕ) (v : V) → find_id k m ≡ some v → P v

  pub AllFound-nil : AllFound []
  AllFound-nil k v e = some_absurd (sym (find_id_nil k) ∙ e)

  pub AllFound-insert_new :
      (k : ℕ) (v : V) (m : List (ℕ × V)) → P v → AllFound m → AllFound (insert_new k v m)
  AllFound-insert_new k v m p a j u e = elim (Option-cases (find_id k m)) [
    | inr (o, f) ↦ a j u (sym (ap (find_id j) (insert_new-found k v o m f)) ∙ e)
    | inl free ↦ elim (ℕ_discrete j k) [
      | yes same ↦
          subst P
            (some_inj (
              sym (find_id-insert_new_self k v m free)
              ∙ ap (λ i. find_id i (insert_new k v m)) (sym same)
              ∙ e))
            p
      | no other ↦ a j u (sym (find_id-insert_new_ne k j v m other) ∙ e)
    ]
  ]

  pub AllFound-erase : (k : ℕ) (m : List (ℕ × V)) → AllFound m → AllFound (erase_key k m)
  AllFound-erase k m a j u e = elim (ℕ_discrete j k) [
    | yes same ↦
        some_absurd (sym (ap (λ i. find_id i (erase_key k m)) same ∙ find_id-erase_self k m) ∙ e)
    | no other ↦ a j u (sym (find_id-erase_ne k j m other) ∙ e)
  ]

-- A change that takes what `P` holds of to what `Q` holds of.
pub AllFound-update {ℓ κ} :
    {V : Type ℓ} (P Q : V → Type κ) (k : ℕ) (f : V → V) (m : List (ℕ × V))
    → ((v : V) → P v → Q v)
    → ((v : V) → P v → Q (f v))
    → AllFound P m
    → AllFound Q (update_id k f m)
AllFound-update P Q k f m same changed a j u e = elim (ℕ_discrete j k) [
  | no other ↦ same u (a j u (sym (find_id-update_ne k j f m other) ∙ e))
  | yes here ↦ elim (Option-cases (find_id k m)) [
    | inl n ↦ some_absurd (sym (updated here ∙ ap (Option.map f) n) ∙ e)
    | inr (v, g) ↦
        subst Q (some_inj (sym (updated here ∙ ap (Option.map f) g) ∙ e)) (changed v (a k v g))
  ]
]
  where
    updated : j ≡ k → find_id j (update_id k f m) ≡ Option.map f (find_id k m)
    updated here = ap (λ i. find_id i (update_id k f m)) here ∙ find_id-update_self k f m
