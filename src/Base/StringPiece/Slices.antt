-- ===== src/Base/StringPiece/Slices.antt =====
-- Slices and prefix tests of src/playground/base/string_piece.cc and string_piece.h.
use playgroundjs_plugin.Common.{
  ℕ, zero, suc, ◌-◌, min, ◌≡◌, refl, ap, ◌∙◌, Bool, ◌&&◌, Option, none, some, [], ◌∷◌, ◌++◌, arith,
  leb, Bytes, bytes_eq, bytes_eq_refl, le→leb, length, length-append, take, drop, length-drop,
  take_all, drop-length-append, take-length-append, true,
}

-- `substr(self, pos, n)`: both arguments are cut down to what there is.
unfoldable pub substr : Bytes → ℕ → Option ℕ → Bytes
substr self pos none =
    let start = min pos (length self) in take (length self - start) (drop start self)
substr self pos (some n) =
    let start = min pos (length self) in take (min n (length self - start)) (drop start self)

unfoldable pub starts_with : Bytes → Bytes → Bool
starts_with self x = leb (length x) (length self) && bytes_eq (take (length x) self) x

unfoldable pub ends_with : Bytes → Bytes → Bool
ends_with self x = leb (length x) (length self) && bytes_eq (drop (length self - length x) self) x

-- `remove_prefix(n)`, called with `n` at most the length.
unfoldable pub remove_prefix : Bytes → ℕ → Bytes
remove_prefix self n = drop n self

drop-min : (n k : ℕ) (xs : Bytes) → k ≡ min n (length xs) → drop k xs ≡ drop n xs
drop-min n zero [] e = drop_nil n
  where
    drop_nil : (m : ℕ) → [] ≡ drop {A = ℕ} m []
    drop_nil zero = refl
    drop_nil (suc m) = refl
drop-min n (suc k) [] e = absurd (omega arith)
drop-min zero zero (x ∷ xs) e = refl
drop-min (suc n) zero (x ∷ xs) e = absurd (omega arith)
drop-min zero (suc k) (x ∷ xs) e = absurd (omega arith)
drop-min (suc n) (suc k) (x ∷ xs) e = drop-min n k xs (omega arith)

take-min : (n k : ℕ) (xs : Bytes) → k ≡ min n (length xs) → take k xs ≡ take n xs
take-min n zero [] e = take_nil n
  where
    take_nil : (m : ℕ) → [] ≡ take {A = ℕ} m []
    take_nil zero = refl
    take_nil (suc m) = refl
take-min n (suc k) [] e = absurd (omega arith)
take-min zero zero (x ∷ xs) e = refl
take-min (suc n) zero (x ∷ xs) e = absurd (omega arith)
take-min zero (suc k) (x ∷ xs) e = absurd (omega arith)
take-min (suc n) (suc k) (x ∷ xs) e = ap (◌∷◌ x) (take-min n k xs (omega arith))

-- A slice to the end is what is left behind `pos`.
pub substr_rest : (self : Bytes) (pos : ℕ) → substr self pos none ≡ drop pos self
unfolding substr
substr_rest self pos =
    take_all (length self - min pos (length self)) (drop (min pos (length self)) self)
      (omega (arith, length-drop (min pos (length self)) self))
    ∙ drop-min pos (min pos (length self)) self refl

-- A slice of `n` bytes is the first `n` behind `pos`.
pub substr-some : (self : Bytes) (pos n : ℕ) → substr self pos (some n) ≡ take n (drop pos self)
unfolding substr
substr-some self pos n =
    take-min n (min n (length self - min pos (length self))) (drop (min pos (length self)) self)
      (omega (arith, length-drop (min pos (length self)) self))
    ∙ ap (take n) (drop-min pos (min pos (length self)) self refl)

-- The slice of the middle of three parts.
pub substr_middle : (a b c : Bytes) → substr (a ++ (b ++ c)) (length a) (some (length b)) ≡ b
substr_middle a b c =
    substr-some (a ++ (b ++ c)) (length a) (length b)
    ∙ ap (take (length b)) (drop-length-append a (b ++ c))
    ∙ take-length-append b c

pub starts_with-append : (x rest : Bytes) → starts_with (x ++ rest) x ≡ true
unfolding starts_with
starts_with-append x rest = rw (
  take-length-append x rest,
  bytes_eq_refl x,
  le→leb (length x) (length (x ++ rest)) (omega (arith, length-append x rest)),
)

pub ends_with-append : (front x : Bytes) → ends_with (front ++ x) x ≡ true
unfolding ends_with
ends_with-append front x =
    let e : length (front ++ x) - length x ≡ length front = omega (arith, length-append front x) in
    rw (
      e,
      drop-length-append front x,
      bytes_eq_refl x,
      le→leb (length x) (length (front ++ x)) (omega (arith, length-append front x)),
    )

-- A slice that leaves the last byte out.
pub substr_but_last :
    (front : Bytes) (c : ℕ)
    → substr (front ++ (c ∷ [])) 0 (some (length (front ++ (c ∷ [])) - 1)) ≡ front
substr_but_last front c =
    let e : length (front ++ (c ∷ [])) - 1 ≡ length front =
      omega (arith, length-append front (c ∷ [])) in
    rw e (substr-some (front ++ (c ∷ [])) 0 (length front) ∙ take-length-append front (c ∷ []))

pub substr_front : (front rest : Bytes) → substr (front ++ rest) 0 (some (length front)) ≡ front
substr_front front rest =
    substr-some (front ++ rest) 0 (length front) ∙ take-length-append front rest
