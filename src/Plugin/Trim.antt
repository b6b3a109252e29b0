-- ===== src/Plugin/Trim.antt =====
-- `Trim` of src/playground/plugin/callback_parser.cc, which native_parser.cc has once more.
use playgroundjs_plugin.Base.StringPiece.{
  find_first_not_of, find_last_not_of, in_set, index_from, index_from-hit, index_from-none,
  index_down, index_down-hit, substr, substr_middle,
}
use playgroundjs_plugin.Common.{
  ℕ, ◌+◌, ◌-◌, ◌≡◌, refl, sym, ap, ◌∙◌, ◌⊎◌, inl, inr, Bool, true, false, not, none, some, [], ◌∷◌,
  ◌++◌, arith, ◌==◌, if◌then◌else◌, Bytes, length, length-append, All, append_assoc, append-nil,
  Bool-cases, subst, ◌<◌,
}

-- `kWhitespaceCharacters`
abbrev pub whitespace_characters : Bytes
whitespace_characters = 0x09 ∷ 0x0A ∷ 0x0C ∷ 0x0D ∷ 0x20 ∷ []

unfoldable pub trim : Bytes → Bytes
trim input =
    if length input == 0 then input else elim (find_first_not_of input whitespace_characters 0) [
      | none ↦ []
      | some first_good_char ↦ elim (find_last_not_of input whitespace_characters none) [
        | none ↦ []
        | some last_good_char ↦
            substr input first_good_char (some (last_good_char - first_good_char + 1))
      ]
    ]

-- A byte of white space, as the parsers see it.
unfoldable pub is_blank : ℕ → Bool
unfolding in_set
is_blank c = in_set whitespace_characters c

-- A text that begins and ends with a byte that is not white space.
pub record IsSolid (t : Bytes) : Type 0 where
  pub head : ℕ
  pub behind : Bytes
  pub front : Bytes
  pub last : ℕ
  pub from_head : t ≡ head ∷ behind
  pub from_last : t ≡ front ++ (last ∷ [])
  pub head_solid : is_blank head ≡ false
  pub last_solid : is_blank last ≡ false

abbrev pub AreBlank : Bytes → Type 0
AreBlank s = All (λ c. is_blank c ≡ true) s

is_solid : ℕ → Bool
unfolding in_set
is_solid c = not (in_set whitespace_characters c)

refuses_blank : (s : Bytes) → AreBlank s → All (λ c. is_solid c ≡ false) s
unfolding is_solid is_blank
refuses_blank [] h = tt
refuses_blank (c ∷ s) h = (rw (h.0), refuses_blank s h.1)

first_is_index : (s : Bytes) → find_first_not_of s whitespace_characters 0 ≡ index_from is_solid 0 s
unfolding find_first_not_of is_solid
first_is_index [] = refl
first_is_index (c ∷ s) = refl

last_is_index :
    (a : Bytes) (c : ℕ) (b : Bytes)
    → find_last_not_of (a ++ (c ∷ b)) whitespace_characters none
      ≡ index_down is_solid (a ++ (c ∷ b)) (length a + length b)
unfolding find_last_not_of is_solid
last_is_index [] c b = ap (index_down is_solid (c ∷ b)) (omega arith)
last_is_index (x ∷ a) c b =
    ap (index_down is_solid (x ∷ (a ++ (c ∷ b)))) (omega (arith, length-append a (c ∷ b)))

first_solid :
    (pre : Bytes) (c : ℕ) (rest : Bytes)
    → AreBlank pre
    → is_blank c ≡ false
    → find_first_not_of (pre ++ (c ∷ rest)) whitespace_characters 0 ≡ some (length pre)
first_solid pre c rest blank solid =
    first_is_index (pre ++ (c ∷ rest))
    ∙ index_from-hit is_solid 0 c pre rest (refuses_blank pre blank)
        (unfold is_solid is_blank in rw solid)
    ∙ zero_plus (length pre)
  where
    zero_plus : (n : ℕ) → some (0 + n) ≡ some n
    zero_plus n = ground arith

last_solid :
    (a : Bytes) (c : ℕ) (post : Bytes)
    → AreBlank post
    → is_blank c ≡ false
    → find_last_not_of (a ++ (c ∷ post)) whitespace_characters none ≡ some (length a)
last_solid a c post blank solid =
    last_is_index a c post
    ∙ index_down-hit is_solid a c post (length post) (unfold is_solid is_blank in rw solid)
        (refuses_blank post blank)

trim_found :
    (s : Bytes) (i j : ℕ)
    → 0 < length s
    → find_first_not_of s whitespace_characters 0 ≡ some i
    → find_last_not_of s whitespace_characters none ≡ some j
    → trim s ≡ substr s i (some (j - i + 1))
unfolding trim
trim_found s i j h e f = ground arith

-- White space is cut off at both ends, and nothing else is.
pub trim_solid :
    (pre t post : Bytes) → AreBlank pre → IsSolid t → AreBlank post → trim (pre ++ (t ++ post)) ≡ t
trim_solid pre t post hpre s hpost =
    trim_found (pre ++ (t ++ post)) (length pre) (length (pre ++ s.front))
      (omega (arith, len, length-append pre (t ++ post), length-append t post))
      (rw (s.from_head) (first_solid pre s.head (s.behind ++ post) hpre s.head_solid))
      (rw (regroup) (last_solid (pre ++ s.front) s.last post hpost s.last_solid))
    ∙ rw (span) (substr_middle pre t post)
  where
    len : length t ≡ length s.front + 1
    len = ap length s.from_last ∙ length-append s.front (s.last ∷ [])

    regroup : pre ++ (t ++ post) ≡ (pre ++ s.front) ++ (s.last ∷ post)
    regroup = rw (s.from_last) (simp append_assoc)

    span : length (pre ++ s.front) - length pre + 1 ≡ length t
    span = omega (arith, len, length-append pre s.front)

-- A text of white space alone is cut down to nothing.
pub trim_blank : (s : Bytes) → AreBlank s → trim s ≡ []
unfolding trim
trim_blank [] h = refl
trim_blank (c ∷ s) h =
    rw (first_is_index (c ∷ s), index_from-none is_solid 0 (c ∷ s) (refuses_blank (c ∷ s) h))
      (ground arith)

-- `t` is what is left of `s` when white space is cut off at its ends.
pub record Trims (s t : Bytes) : Type 0 where
  pub pre : Bytes
  pub post : Bytes
  pub parts : s ≡ pre ++ (t ++ post)
  pub pre_blank : AreBlank pre
  pub post_blank : AreBlank post
  pub ends : (t ≡ []) ⊎ IsSolid t

record Core (s : Bytes) : Type 0 where
  pre : Bytes
  t : Bytes
  post : Bytes
  parts : s ≡ pre ++ (t ++ post)
  pre_blank : AreBlank pre
  post_blank : AreBlank post
  solid : IsSolid t

Core-one : (c : ℕ) (s : Bytes) → is_blank c ≡ false → AreBlank s → Core (c ∷ s)
Core-one c s e h = record {
  pre = [];
  t = c ∷ [];
  post = s;
  parts = refl;
  pre_blank = tt;
  post_blank = h;
  solid = record {
    head = c;
    behind = [];
    front = [];
    last = c;
    from_head = refl;
    from_last = refl;
    head_solid = e;
    last_solid = e;
  };
}

Core-blank : (c : ℕ) {s : Bytes} → is_blank c ≡ true → Core s → Core (c ∷ s)
Core-blank c e k = record {
  pre = c ∷ k.pre;
  t = k.t;
  post = k.post;
  parts = ap (◌∷◌ c) k.parts;
  pre_blank = (e, k.pre_blank);
  post_blank = k.post_blank;
  solid = k.solid;
}

Core-solid : (c : ℕ) {s : Bytes} → is_blank c ≡ false → Core s → Core (c ∷ s)
Core-solid c e k = record {
  pre = [];
  t = c ∷ (k.pre ++ k.t);
  post = k.post;
  parts = rw (k.parts) (simp append_assoc);
  pre_blank = tt;
  post_blank = k.post_blank;
  solid = record {
    head = c;
    behind = k.pre ++ k.t;
    front = c ∷ (k.pre ++ k.solid.front);
    last = k.solid.last;
    from_head = refl;
    from_last = ap (λ u. c ∷ (k.pre ++ u)) k.solid.from_last ∙ simp append_assoc;
    head_solid = e;
    last_solid = k.solid.last_solid;
  };
}

AreBlank-cons : (c : ℕ) (s : Bytes) → is_blank c ≡ true → AreBlank s → AreBlank (c ∷ s)
AreBlank-cons c s e h = (e, h)

blank_or_Core : (s : Bytes) → AreBlank s ⊎ Core s
blank_or_Core [] = inl tt
blank_or_Core (c ∷ s) = extend (Bool-cases (is_blank c)) (blank_or_Core s)
  where
    extend :
        (is_blank c ≡ true) ⊎ (is_blank c ≡ false)
        → AreBlank s ⊎ Core s
        → AreBlank (c ∷ s) ⊎ Core (c ∷ s)
    extend (inl e) (inl h) = inl (AreBlank-cons c s e h)
    extend (inl e) (inr k) = inr (Core-blank c e k)
    extend (inr e) (inl h) = inr (Core-one c s e h)
    extend (inr e) (inr k) = inr (Core-solid c e k)

-- `Trim` cuts white space off both ends of any text: what is left of it is empty or begins and ends
-- with a byte that is no white space, and what is cut off is white space.
pub trim-Trims : (s : Bytes) → Trims s (trim s)
trim-Trims s = elim (blank_or_Core s) [
  | inl h ↦ record {
    pre = s;
    post = [];
    parts = rw (trim_blank s h) (sym (append-nil s));
    pre_blank = h;
    post_blank = tt;
    ends = inl (trim_blank s h);
  }
  | inr k ↦
      from_core k (rw (k.parts) (trim_solid k.pre k.t k.post k.pre_blank k.solid k.post_blank))
]
  where
    from_core : (k : Core s) → trim s ≡ k.t → Trims s (trim s)
    from_core k e = record {
      pre = k.pre;
      post = k.post;
      parts = rw e k.parts;
      pre_blank = k.pre_blank;
      post_blank = k.post_blank;
      ends = inr (subst IsSolid (sym e) k.solid);
    }

-- A solid text has nothing to cut off.
pub trim_id : (t : Bytes) → IsSolid t → trim t ≡ t
trim_id t s = ap trim (sym (append-nil t)) ∙ trim_solid [] t [] tt s tt
