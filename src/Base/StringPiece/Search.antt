-- ===== src/Base/StringPiece/Search.antt =====
-- The `find_*_of` family of src/playground/base/string_piece.cc, each loop as a recursion.
use playgroundjs_plugin.Common.{
  ℕ, zero, suc, ◌+◌, ◌-◌, min, ◌≡◌, refl, ap, ◌∙◌, Bool, true, false, not, ◌||◌, Option, none, some,
  [], ◌∷◌, ◌++◌, arith, leb, ◌==◌, if◌then◌else◌, Bytes, length, get_elem?, drop, All, ◌⊎◌, inl,
  Bool-cases, inr, subst, sym, ◌≤◌, leb→le, ==_refl,
}

-- `BuildLookupTable` and a read of the table.
unfoldable pub in_set : Bytes → ℕ → Bool
in_set [] c = false
in_set (x ∷ s) c = c == x || in_set s c

-- The loop `for (size_t i = pos; i < self.size(); ++i)` over the bytes from `pos` on.
unfoldable pub index_from : (ℕ → Bool) → ℕ → Bytes → Option ℕ
index_from p i [] = none
index_from p i (c ∷ cs) = let rest = index_from p (i + 1) cs in if p c then some i else rest

-- The test of the byte at `i`; the loops below read no byte out of range.
unfoldable pub test_at : (ℕ → Bool) → Bytes → ℕ → Bool
test_at p s i = elim (get_elem? s i) [ none ↦ false | some c ↦ p c ]

-- The loop `for (size_t i = …; ; --i)` that stops behind index 0.
unfoldable pub index_down : (ℕ → Bool) → Bytes → ℕ → Option ℕ
unfolding test_at
index_down p s zero = if test_at p s zero then some zero else none
index_down p s (suc i) =
    let rest = index_down p s i in if test_at p s (suc i) then some (suc i) else rest

-- `find(self, c, pos)`
unfoldable pub find_char : Bytes → ℕ → ℕ → Option ℕ
find_char self c pos =
    if leb (length self) pos then none else index_from (λ x. x == c) pos (drop pos self)

unfoldable pub find_first_of : Bytes → Bytes → ℕ → Option ℕ
unfolding find_char in_set index_from
find_first_of [] s pos = none
find_first_of self [] pos = none
find_first_of self (c ∷ []) pos = find_char self c pos
find_first_of self s pos = index_from (in_set s) pos (drop pos self)

-- `find_first_not_of(self, c, pos)`
unfoldable pub find_first_not_char : Bytes → ℕ → ℕ → Option ℕ
unfolding index_from
find_first_not_char self c pos = index_from (λ x. not (x == c)) pos (drop pos self)

unfoldable pub find_first_not_of : Bytes → Bytes → ℕ → Option ℕ
unfolding find_first_not_char in_set index_from
find_first_not_of [] s pos = none
find_first_not_of self [] pos = some 0
find_first_not_of self (c ∷ []) pos = find_first_not_char self c pos
find_first_not_of self s pos = index_from (λ x. not (in_set s x)) pos (drop pos self)

-- `std::min(pos, self.size() - 1)`, where `pos` may be `npos`
abbrev pub last_start : Bytes → Option ℕ → ℕ
last_start self none = length self - 1
last_start self (some pos) = min pos (length self - 1)

-- `rfind(self, c, pos)`
unfoldable pub rfind_char : Bytes → ℕ → Option ℕ → Option ℕ
unfolding index_down
rfind_char [] c pos = none
rfind_char self c pos = index_down (λ x. x == c) self (last_start self pos)

unfoldable pub find_last_of : Bytes → Bytes → Option ℕ → Option ℕ
unfolding rfind_char in_set index_down
find_last_of [] s pos = none
find_last_of self [] pos = none
find_last_of self (c ∷ []) pos = rfind_char self c pos
find_last_of self s pos = index_down (in_set s) self (last_start self pos)

-- `find_last_not_of(self, c, pos)`
unfoldable pub find_last_not_char : Bytes → ℕ → Option ℕ → Option ℕ
unfolding index_down
find_last_not_char [] c pos = none
find_last_not_char self c pos = index_down (λ x. not (x == c)) self (last_start self pos)

unfoldable pub find_last_not_of : Bytes → Bytes → Option ℕ → Option ℕ
unfolding find_last_not_char in_set index_down
find_last_not_of [] s pos = none
find_last_not_of self [] pos = some (last_start self pos)
find_last_not_of self (c ∷ []) pos = find_last_not_char self c pos
find_last_not_of self s pos = index_down (λ x. not (in_set s x)) self (last_start self pos)

-- Bytes that the test refuses are passed over.
pub index_from-skip :
    (p : ℕ → Bool) (i : ℕ) (xs ys : Bytes)
    → All (λ x. p x ≡ false) xs
    → index_from p i (xs ++ ys) ≡ index_from p (i + length xs) ys
unfolding index_from
index_from-skip p i [] ys h = ap (λ k. index_from p k ys) (omega arith)
index_from-skip p i (x ∷ xs) ys h =
    rw (h.0) (index_from-skip p (i + 1) xs ys h.1 ∙ ap (λ k. index_from p k ys) (omega arith))

pub index_from-none :
    (p : ℕ → Bool) (i : ℕ) (xs : Bytes) → All (λ x. p x ≡ false) xs → index_from p i xs ≡ none
unfolding index_from
index_from-none p i [] h = refl
index_from-none p i (x ∷ xs) h = rw (h.0) (index_from-none p (i + 1) xs h.1)

pub index_from-hit :
    (p : ℕ → Bool) (i x : ℕ) (xs ys : Bytes)
    → All (λ x. p x ≡ false) xs
    → p x ≡ true
    → index_from p i (xs ++ (x ∷ ys)) ≡ some (i + length xs)
index_from-hit p i x xs ys h e = index_from-skip p i xs (x ∷ ys) h ∙ unfold index_from in rw e

-- A byte behind `a` is refused, or is the one at `length a`.
pub get_elem?-append_right :
    (a b : Bytes) (i : ℕ) → get_elem? (a ++ b) (length a + i) ≡ get_elem? b i
get_elem?-append_right [] b i = ap (get_elem? b) (omega arith)
get_elem?-append_right (x ∷ a) b i =
    let e : suc (length a) + i ≡ suc (length a + i) = omega arith in
    rw e (get_elem?-append_right a b i)

test_at-All :
    (p : ℕ → Bool) (xs : Bytes) (i : ℕ) → All (λ x. p x ≡ false) xs → test_at p xs i ≡ false
unfolding test_at
test_at-All p [] i h = refl
test_at-All p (x ∷ xs) zero h = h.0
test_at-All p (x ∷ xs) (suc i) h = test_at-All p xs i h.1

test_at-append_right :
    (p : ℕ → Bool) (a b : Bytes) (i : ℕ) → test_at p (a ++ b) (length a + i) ≡ test_at p b i
unfolding test_at
test_at-append_right p a b i = rw (get_elem?-append_right a b i, test_at)

index_down-stop :
    (p : ℕ → Bool) (s : Bytes) (i : ℕ) → test_at p s i ≡ true → index_down p s i ≡ some i
unfolding index_down
index_down-stop p s zero e = rw e
index_down-stop p s (suc i) e = rw e

index_down-step :
    (p : ℕ → Bool) (s : Bytes) (i j : ℕ)
    → i ≡ suc j
    → test_at p s i ≡ false
    → index_down p s i ≡ index_down p s j
unfolding index_down
index_down-step p s zero j h e = absurd (omega arith)
index_down-step p s (suc i) j h e = rw e (ap (index_down p s) (omega arith))

plus_zero : (n : ℕ) → some (n + 0) ≡ some n
plus_zero n = ground arith

-- The last byte that the test takes is found from any place at or behind it.
pub index_down-hit :
    (p : ℕ → Bool) (a : Bytes) (x : ℕ) (b : Bytes) (k : ℕ)
    → p x ≡ true
    → All (λ x. p x ≡ false) b
    → index_down p (a ++ (x ∷ b)) (length a + k) ≡ some (length a)
index_down-hit p a x b zero e h =
    index_down-stop p (a ++ (x ∷ b)) (length a + 0)
      (test_at-append_right p a (x ∷ b) 0 ∙ unfold test_at in e)
    ∙ plus_zero (length a)
index_down-hit p a x b (suc k) e h =
    index_down-step p (a ++ (x ∷ b)) (length a + suc k) (length a + k) (omega arith)
      (test_at-append_right p a (x ∷ b) (suc k) ∙ unfold test_at in test_at-All p b k h)
    ∙ index_down-hit p a x b k e h

-- Where a search forward stops: at the first byte that the test takes, or nowhere.
pub record FirstAt (p : ℕ → Bool) (i : ℕ) (xs : Bytes) (found : Option ℕ) : Type 0 where
  pub pre : Bytes
  pub hit : ℕ
  pub post : Bytes
  pub parts : xs ≡ pre ++ (hit ∷ post)
  pub passed : All (λ x. p x ≡ false) pre
  pub taken : p hit ≡ true
  pub place : found ≡ some (i + length pre)

FirstAt-here : (p : ℕ → Bool) (i x : ℕ) (xs : Bytes) → p x ≡ true → FirstAt p i (x ∷ xs) (some i)
FirstAt-here p i x xs e = record {
  pre = [];
  hit = x;
  post = xs;
  parts = refl;
  passed = tt;
  taken = e;
  place = ground arith;
}

FirstAt-there :
    (p : ℕ → Bool) (i x : ℕ) (xs : Bytes) (found : Option ℕ)
    → p x ≡ false
    → FirstAt p (i + 1) xs found
    → FirstAt p i (x ∷ xs) found
FirstAt-there p i x xs found e f = record {
  pre = x ∷ f.pre;
  hit = f.hit;
  post = f.post;
  parts = ap (◌∷◌ x) f.parts;
  passed = (e, f.passed);
  taken = f.taken;
  place = f.place ∙ shift i (length f.pre);
}
  where
    shift : (a b : ℕ) → some (a + 1 + b) ≡ some (a + suc b)
    shift a b = ground arith

pub index_from-cons_true :
    (p : ℕ → Bool) (i x : ℕ) (xs : Bytes) → p x ≡ true → index_from p i (x ∷ xs) ≡ some i
unfolding index_from
index_from-cons_true p i x xs e = rw e

pub index_from-cons_false :
    (p : ℕ → Bool) (i x : ℕ) (xs : Bytes)
    → p x ≡ false
    → index_from p i (x ∷ xs) ≡ index_from p (i + 1) xs
unfolding index_from
index_from-cons_false p i x xs e = rw e

pub index_from-nil : (p : ℕ → Bool) (i : ℕ) → index_from p i [] ≡ none
unfolding index_from
index_from-nil p i = refl

-- A forward search finds nothing, or the first byte that the test takes.
pub index_from_cases :
    (p : ℕ → Bool) (i : ℕ) (xs : Bytes)
    → ((index_from p i xs ≡ none) × All (λ x. p x ≡ false) xs) ⊎ FirstAt p i xs (index_from p i xs)
index_from_cases p i [] = inl (index_from-nil p i, tt)
index_from_cases p i (x ∷ xs) = extend (Bool-cases (p x)) (index_from_cases p (i + 1) xs)
  where
    extend :
        (p x ≡ true) ⊎ (p x ≡ false)
        → ((index_from p (i + 1) xs ≡ none) × All (λ x. p x ≡ false) xs)
          ⊎ FirstAt p (i + 1) xs (index_from p (i + 1) xs)
        → ((index_from p i (x ∷ xs) ≡ none) × All (λ x. p x ≡ false) (x ∷ xs))
          ⊎ FirstAt p i (x ∷ xs) (index_from p i (x ∷ xs))
    extend (inl e) r = inr (
        subst (FirstAt p i (x ∷ xs)) (sym (index_from-cons_true p i x xs e))
          (FirstAt-here p i x xs e))
    extend (inr e) (inl (n, h)) = inl (index_from-cons_false p i x xs e ∙ n, (e, h))
    extend (inr e) (inr f) = inr (
        subst (FirstAt p i (x ∷ xs)) (sym (index_from-cons_false p i x xs e))
          (FirstAt-there p i x xs _ e f))

drop_over : (n : ℕ) (s : Bytes) → length s ≤ n → drop n s ≡ []
drop_over zero [] h = refl
drop_over zero (x ∷ s) h = absurd (omega arith)
drop_over (suc n) [] h = refl
drop_over (suc n) (x ∷ s) h = drop_over n s (omega arith)

-- A search for one byte looks at what stands behind `pos`.
pub find_char_from :
    (self : Bytes) (c pos : ℕ) → find_char self c pos ≡ index_from (λ x. x == c) pos (drop pos self)
unfolding find_char
find_char_from self c pos = elim (Bool-cases (leb (length self) pos)) [
  | inl e ↦ rw e (
      sym (
        ap (index_from (λ x. x == c) pos) (drop_over pos self (leb→le (length self) pos e))
        ∙ index_from-nil (λ x. x == c) pos))
  | inr e ↦ rw e
]

-- A search for a byte that is not in `a` stops behind it.
pub find_char-hit :
    (a : Bytes) (c : ℕ) (b : Bytes)
    → All (λ x. (x == c) ≡ false) a
    → find_char (a ++ (c ∷ b)) c 0 ≡ some (length a)
find_char-hit a c b h =
    find_char_from (a ++ (c ∷ b)) c 0
    ∙ index_from-hit (λ x. x == c) 0 c a b h (==_refl c)
    ∙ zero_plus (length a)
  where
    zero_plus : (n : ℕ) → some (0 + n) ≡ some n
    zero_plus n = ground arith

pub find_char-none : (a : Bytes) (c : ℕ) → All (λ x. (x == c) ≡ false) a → find_char a c 0 ≡ none
find_char-none a c h = find_char_from a c 0 ∙ index_from-none (λ x. x == c) 0 a h

-- The search for a byte from an offset finds nothing, where the byte does not stand from there on,
-- or the first place where it does.
pub find_char-FirstAt :
    (self : Bytes) (c pos : ℕ)
    → ((find_char self c pos ≡ none) × All (λ x. (x == c) ≡ false) (drop pos self))
      ⊎ FirstAt (λ x. x == c) pos (drop pos self) (find_char self c pos)
find_char-FirstAt self c pos =
    rw (find_char_from self c pos) (index_from_cases (λ x. x == c) pos (drop pos self))
