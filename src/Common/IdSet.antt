-- ===== src/Common/IdSet.antt =====
-- `std::set` of ids: the ids in ascending order.
use Prim.Native.Nat.{ℕ, suc, ◌<◌, ◌≤◌}
use mathlib.Core.Path.{◌≡◌}
use mathlib.Core.Logic.{◌⊎◌, inl, inr}
use mathlib.Core.Bool.{Bool, true, false, ◌||◌, ◌&&◌, not}
use mathlib.Core.List.{List, [], ◌∷◌}
use native.Mathlib.Omega.{arith}
use playgroundjs_plugin.Common.Tests.{◌==◌, ltb, if◌then◌else◌, ==_iff, ==_ne, lt→ltb}
use playgroundjs_plugin.Common.Lists.{length, All, All-imp}

unfoldable pub elem : ℕ → List ℕ → Bool
elem x [] = false
elem x (y ∷ ys) = x == y || elem x ys

-- `insert`
unfoldable pub insert_id : ℕ → List ℕ → List ℕ
insert_id x [] = x ∷ []
insert_id x (y ∷ ys) =
    let rest = insert_id x ys in if ltb x y then x ∷ y ∷ ys else if x == y then y ∷ ys else y ∷ rest

-- `erase`
unfoldable pub erase_id : ℕ → List ℕ → List ℕ
erase_id x [] = []
erase_id x (y ∷ ys) = let rest = erase_id x ys in if x == y then rest else y ∷ rest

-- Each id is below those behind it.
abbrev pub IsAscending : List ℕ → Type 0
IsAscending [] = Unit
IsAscending (x ∷ xs) = All (λ y. x < y) xs × IsAscending xs

pub elem-here : (x : ℕ) (xs : List ℕ) → elem x (x ∷ xs) ≡ true
unfolding elem
elem-here x xs = ground arith

pub elem-there : (x y : ℕ) (xs : List ℕ) → elem x xs ≡ true → elem x (y ∷ xs) ≡ true
unfolding elem
elem-there x y xs h = ground arith

pub elem_cases : (x y : ℕ) (xs : List ℕ) → elem x (y ∷ xs) ≡ true → (x ≡ y) ⊎ (elem x xs ≡ true)
unfolding elem
elem_cases x y xs h = ground arith

pub elem-insert_id : (x y : ℕ) (s : List ℕ) → elem x (insert_id y s) ≡ (x == y || elem x s)
unfolding elem insert_id
elem-insert_id x y [] = ground arith
elem-insert_id x y (z ∷ s) = ground (arith, elem-insert_id x y s)

pub elem-insert_id_self : (x : ℕ) (s : List ℕ) → elem x (insert_id x s) ≡ true
elem-insert_id_self x s = ground (arith, elem-insert_id x x s)

pub elem-insert_id_keep : (x y : ℕ) (s : List ℕ) → elem x s ≡ true → elem x (insert_id y s) ≡ true
elem-insert_id_keep x y s h = ground (arith, elem-insert_id x y s)

pub elem-erase_id : (x y : ℕ) (s : List ℕ) → elem x (erase_id y s) ≡ (not (x == y) && elem x s)
unfolding elem erase_id
elem-erase_id x y [] = ground arith
elem-erase_id x y (z ∷ s) = ground (arith, elem-erase_id x y s)

pub length-insert_id_le : (x : ℕ) (s : List ℕ) → length (insert_id x s) ≤ suc (length s)
unfolding insert_id
length-insert_id_le x [] = omega arith
length-insert_id_le x (y ∷ s) = ground (arith, length-insert_id_le x s)

pub length-insert_id_ge : (x : ℕ) (s : List ℕ) → length s ≤ length (insert_id x s)
unfolding insert_id
length-insert_id_ge x [] = omega arith
length-insert_id_ge x (y ∷ s) = ground (arith, length-insert_id_ge x s)

All-insert_id :
    (b x : ℕ) (s : List ℕ) → b < x → All (λ y. b < y) s → All (λ y. b < y) (insert_id x s)
unfolding insert_id
All-insert_id b x [] h a = (h, tt)
All-insert_id b x (y ∷ s) h a = ground (arith, All-insert_id b x s h)

pub insert_id-IsAscending : (x : ℕ) (s : List ℕ) → IsAscending s → IsAscending (insert_id x s)
unfolding insert_id
insert_id-IsAscending x [] h = (tt, tt)
insert_id-IsAscending x (y ∷ s) h = elim (trichotomy x y) [
  | inl lt ↦ rw (lt→ltb x y lt) ((lt, All-imp (λ z b. omega (arith, lt, b)) s h.0), h)
  | inr (inl e) ↦ rw (le→ltb_false y x (omega arith), (==_iff x y).1 e) h
  | inr (inr gt) ↦
      rw (le→ltb_false y x (omega arith), ==_ne x y (λ e. omega arith))
        (All-insert_id y x s gt h.0, insert_id-IsAscending x s h.1)
]
  where
    trichotomy : (a b : ℕ) → (a < b) ⊎ ((a ≡ b) ⊎ (b < a))
    trichotomy a b = ground arith

    le→ltb_false : (a b : ℕ) → a ≤ b → ltb b a ≡ false
    le→ltb_false a b h = ground arith
