-- ===== src/Plugin/Lines.antt =====
-- The loop over the lines of a file, which `CallbackParser::Parse` and `NativeParser::Parse` of
-- src/playground/plugin share: `parse_line` is what each does with a line that is neither empty
-- nor a comment, on what it has gathered so far.
use playgroundjs_plugin.Base.StringPiece.{
  find_first_of, substr, starts_with, index_from, find_char_from, index_from_cases, index_from-nil,
  substr_rest, FirstAt, substr-some,
}
use playgroundjs_plugin.Plugin.Trim.{trim}
use playgroundjs_plugin.Common.{
  ℕ, zero, suc, ◌+◌, ◌-◌, ◌||◌, Option, none, some, List, [], ◌∷◌, ◌==◌, if◌then◌else◌, Bytes,
  codes, length, drop, All, ◌≡◌, false, ap, true, arith, ◌++◌, Bool-cases, drop_nil, ◌<◌, inl, sym,
  inr, Option-cases, ◌∙◌, refl, drop-drop, length-append, take, take-length-append,
}

module _ {ℓ} {S : Type ℓ} (parse_line : Bytes → S → Option S) where
  -- What is done with one line: `none` if it is refused.
  unfoldable pub take_line : Bytes → S → Option S
  take_line raw s =
      let line = trim raw in
      if length line == 0
      then some s
      else if starts_with line (codes "#") || starts_with line (codes "//")
      then some s
      else parse_line line s

  -- `while (start != npos)`, with fuel for the rounds. The outer `none` is a lack of fuel.
  unfoldable pub line_loop : ℕ → Bytes → Option ℕ → S → Option (Option S)
  line_loop fuel content none s = some (some s)
  line_loop zero content (some start) s = none
  line_loop (suc fuel) content (some start) s = elim (find_first_of content (codes "\n") start) [
    | none ↦ elim (take_line (substr content start none) s) [
      | none ↦ some none
      | some s' ↦ line_loop fuel content none s'
    ]
    | some end ↦ elim (take_line (substr content start (some (end - start))) s) [
      | none ↦ some none
      | some s' ↦ line_loop fuel content (some (end + 1)) s'
    ]
  ]

  -- The same over a list of lines.
  unfoldable pub each_line : List Bytes → S → Option S
  each_line [] s = some s
  each_line (raw ∷ rest) s = elim (take_line raw s) [ none ↦ none | some s' ↦ each_line rest s' ]

-- Puts a byte in front of a text that is cut into lines.
onto_lines : ℕ → List Bytes → List Bytes
onto_lines c [] = []
onto_lines c (l ∷ ls) = if c == b'\n' then [] ∷ l ∷ ls else (c ∷ l) ∷ ls

-- A text cut at its line feeds.
unfoldable pub split_lines : Bytes → List Bytes
unfolding onto_lines
split_lines [] = [] ∷ []
split_lines (c ∷ cs) = onto_lines c (split_lines cs)

abbrev NoFeed : Bytes → Type 0
NoFeed s = All (λ x. (x == b'\n') ≡ false) s

split_lines_last : (s : Bytes) → NoFeed s → split_lines s ≡ s ∷ []
unfolding split_lines
split_lines_last [] h = refl
split_lines_last (c ∷ s) h = rw (split_lines_last s h.1, onto_lines, h.0)

split_lines-cons : (s : Bytes) → (l : Bytes) × (ls : List Bytes) × (split_lines s ≡ l ∷ ls)
unfolding split_lines
split_lines-cons [] = ([], [], refl)
split_lines-cons (c ∷ s) =
    let (l, ls, e) = split_lines-cons s in
    elim (Bool-cases (c == b'\n')) [
      | inl h ↦ ([], l ∷ ls, rw (e, onto_lines, h))
      | inr h ↦ (c ∷ l, ls, rw (e, onto_lines, h))
    ]

split_lines_feed :
    (pre : Bytes) (c : ℕ) (post : Bytes)
    → NoFeed pre
    → (c == b'\n') ≡ true
    → split_lines (pre ++ (c ∷ post)) ≡ pre ∷ split_lines post
unfolding split_lines
split_lines_feed [] c post h e = let (l, ls, f) = split_lines-cons post in rw (f, onto_lines, e)
split_lines_feed (x ∷ pre) c post h e = rw (split_lines_feed pre c post h.1 e, onto_lines, h.0)

find_feed :
    (content : Bytes) (start : ℕ)
    → find_first_of content (codes "\n") start
      ≡ index_from (λ x. x == b'\n') start (drop start content)
unfolding find_first_of
find_feed [] start = rw (drop_nil ℕ start) (sym (index_from-nil (λ x. x == b'\n') start))
find_feed (c ∷ s) start = find_char_from (c ∷ s) b'\n' start

pub drop_hit :
    (pre : Bytes) (c : ℕ) (post : Bytes) → drop (length pre + 1) (pre ++ (c ∷ post)) ≡ post
drop_hit [] c post = refl
drop_hit (x ∷ pre) c post =
    let e : suc (length pre) + 1 ≡ suc (length pre + 1) = omega arith in rw e (drop_hit pre c post)

-- What the first line feed behind `start` separates.
module _ (content : Bytes) (start : ℕ) {found : Option ℕ}
    (f : FirstAt (λ x. x == b'\n') start (drop start content) found) where
  line_behind : drop (start + length f.pre + 1) content ≡ f.post
  line_behind =
      let e : start + length f.pre + 1 ≡ start + (length f.pre + 1) = omega arith in
      rw e (
        drop-drop start (length f.pre + 1) content
        ∙ ap (drop (length f.pre + 1)) f.parts
        ∙ drop_hit f.pre f.hit f.post)

  line_cut : substr content start (some (start + length f.pre - start)) ≡ f.pre
  line_cut =
      let e : start + length f.pre - start ≡ length f.pre = omega arith in
      rw e (
        substr-some content start (length f.pre)
        ∙ ap (take (length f.pre)) f.parts
        ∙ take-length-append f.pre (f.hit ∷ f.post))

  line_shorter : length f.post < length (drop start content)
  line_shorter = omega (arith, ap length f.parts, length-append f.pre (f.hit ∷ f.post))

  line_split : split_lines (drop start content) ≡ f.pre ∷ split_lines f.post
  line_split = ap split_lines f.parts ∙ split_lines_feed f.pre f.hit f.post f.passed f.taken

module _ {ℓ} {S : Type ℓ} (parse_line : Bytes → S → Option S) where
  line_loop-none :
      (fuel : ℕ) (content : Bytes) (s : S)
      → line_loop parse_line fuel content none s ≡ some (some s)
  unfolding line_loop
  line_loop-none zero content s = refl
  line_loop-none (suc fuel) content s = refl

  line_loop-last :
      (fuel : ℕ) (content : Bytes) (start : ℕ) (s : S)
      → find_first_of content (codes "\n") start ≡ none
      → line_loop parse_line (suc fuel) content (some start) s
        ≡ some (take_line parse_line (substr content start none) s)
  unfolding line_loop
  line_loop-last fuel content start s e =
      rw (e, line_loop)
        (elim (Option-cases (take_line parse_line (substr content start none) s)) [
          | inl n ↦ rw n
          | inr (t, f) ↦ rw f (line_loop-none fuel content t)
        ])

  each_line-last : (l : Bytes) (s : S) → each_line parse_line (l ∷ []) s ≡ take_line parse_line l s
  unfolding each_line
  each_line-last l s = elim (Option-cases (take_line parse_line l s)) [
    | inl n ↦ rw (n, each_line)
    | inr (t, f) ↦ rw (f, each_line)
  ]

  line_loop-more :
      (fuel : ℕ) (content : Bytes) (start end : ℕ) (lines : List Bytes) (s : S)
      → find_first_of content (codes "\n") start ≡ some end
      → ((t : S)
          → line_loop parse_line fuel content (some (end + 1)) t
            ≡ some (each_line parse_line lines t))
      → line_loop parse_line (suc fuel) content (some start) s
        ≡ some (each_line parse_line (substr content start (some (end - start)) ∷ lines) s)
  unfolding line_loop each_line
  line_loop-more fuel content start end lines s e rest =
      rw (e, line_loop)
        (elim (Option-cases (take_line parse_line (substr content start (some (end - start))) s)) [
          | inl n ↦ rw (n, each_line)
          | inr (t, f) ↦ rw (f, each_line) (rest t)
        ])

  -- The loop from `start` on does what each line behind `start` asks for, in order.
  pub line_loop-each_line :
      (fuel : ℕ) (content : Bytes) (start : ℕ) (s : S)
      → length (drop start content) < fuel
      → line_loop parse_line fuel content (some start) s
        ≡ some (each_line parse_line (split_lines (drop start content)) s)
  line_loop-each_line zero content start s h = elim h [ ]
  line_loop-each_line (suc fuel) content start s h =
      elim (index_from_cases (λ x. x == b'\n') start (drop start content)) [
        | inl (n, no_feed) ↦
            line_loop-last fuel content start s (find_feed content start ∙ n)
            ∙ ap (λ l. some (take_line parse_line l s)) (substr_rest content start)
            ∙ ap some (sym (each_line-last (drop start content) s))
            ∙ ap (λ ls. some (each_line parse_line ls s)) (sym (split_lines_last _ no_feed))
        | inr f ↦
            let behind = line_behind content start f in
            line_loop-more fuel content start (start + length f.pre) (split_lines f.post) s
              (find_feed content start ∙ f.place)
              (λ t.
                line_loop-each_line fuel content (start + length f.pre + 1) t
                  (omega (arith, ap length behind, line_shorter content start f))
                ∙ ap (λ r. some (each_line parse_line (split_lines r) t)) behind)
            ∙ ap (λ l. some (each_line parse_line (l ∷ split_lines f.post) s))
                (line_cut content start f)
            ∙ ap (λ ls. some (each_line parse_line ls s)) (sym (line_split content start f))
      ]

-- An empty text has nothing to take.
pub each_line-empty {ℓ} :
    {S : Type ℓ} (parse_line : Bytes → S → Option S) (s : S)
    → each_line parse_line (split_lines []) s ≡ some s
unfolding each_line split_lines take_line trim
each_line-empty parse_line s = refl

-- A property that each accepted line keeps holds of what a whole file gives.
module _ {ℓ κ} {S : Type ℓ} (P : S → Type κ) (parse_line : Bytes → S → Option S)
    (keep : (line : Bytes) (s t : S) → P s → parse_line line s ≡ some t → P t) where
  take_line_keeps : (raw : Bytes) (s t : S) → P s → take_line parse_line raw s ≡ some t → P t
  unfolding take_line
  take_line_keeps raw s t h e = ground (arith, keep (trim raw) s t h)

  pub each_line_keeps :
      (lines : List Bytes) (s t : S) → P s → each_line parse_line lines s ≡ some t → P t
  unfolding each_line
  each_line_keeps [] s t h e = ground arith
  each_line_keeps (l ∷ ls) s t h e = elim (Option-cases (take_line parse_line l s)) [
    | inl n ↦ absurd (ground arith)
    | inr (u, f) ↦ each_line_keeps ls u t (take_line_keeps l s u h f) (ground arith)
  ]
