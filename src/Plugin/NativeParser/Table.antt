-- ===== src/Plugin/NativeParser/Table.antt =====
-- What src/playground/plugin/native_parser.cc stores: the names, and the table of natives.
use playgroundjs_plugin.Plugin.Lines.{
  each_line, split_lines, each_line-empty, line_loop-each_line, each_line_keeps,
}
use playgroundjs_plugin.Plugin.NativeParser.{
  parse, Loaded, parse_line, contains_name, register, TableEntry, all_valid, max_natives,
  register_all, invoke, is_valid_character,
}
use playgroundjs_plugin.Common.{
  Bytes, ℕ, List, ◌≡◌, ◌∷◌, All, some, false, length, get_elem?, suc, ◌<◌, replicate, ◌≢◌, ◌≤◌,
  Option-cases, none, Bool-cases, arith, true, ◌++◌, [], inr, inl, bytes_eq_iff, set, ◌-◌, ◌+◌,
  length-set, bytes_eq_ne, ◌∙◌, ℕ_discrete, get_elem?-set_self, subst, get_elem?-set_ne, refl, ap,
  sym, All-append, zero, dec_lt, Option, length-replicate, get_elem?-replicate, get_elem?-over, ltb,
  false≢true, All-imp, bytes_eq, ◌⊎◌,
}

-- No name is listed twice.
abbrev pub Distinct : List Bytes → Type 0
Distinct [] = Unit
Distinct (n ∷ ns) = (contains_name n ns ≡ false) × Distinct ns

-- Every name has passed the checks of the parser.
pub record IsChecked (natives : List Bytes) : Type 0 where
  pub distinct : Distinct natives
  pub valid : All (λ n. all_valid n ≡ true) natives

contains_name-append :
    (m n : Bytes) (ns : List Bytes)
    → contains_name m ns ≡ false
    → m ≢ n
    → contains_name m (ns ++ (n ∷ [])) ≡ false
unfolding contains_name
contains_name-append m n [] h ne = rw (bytes_eq_ne n m (λ e. ne (sym e)))
contains_name-append m n (x ∷ ns) h ne = ground (arith, contains_name-append m n ns)

ne_of_contains : (n x : Bytes) (ns : List Bytes) → contains_name n (x ∷ ns) ≡ false → x ≢ n
unfolding contains_name
ne_of_contains n x ns h e = ground (arith, bytes_eq_iff x n)

rest_of_contains :
    (n x : Bytes) (ns : List Bytes) → contains_name n (x ∷ ns) ≡ false → contains_name n ns ≡ false
unfolding contains_name
rest_of_contains n x ns h = ground arith

Distinct-append :
    (n : Bytes) (ns : List Bytes)
    → Distinct ns
    → contains_name n ns ≡ false
    → Distinct (ns ++ (n ∷ []))
Distinct-append n [] d h = (unfold contains_name in refl, tt)
Distinct-append n (x ∷ ns) d h = (
  contains_name-append x n ns d.0 (ne_of_contains n x ns h),
  Distinct-append n ns d.1 (rest_of_contains n x ns h),
)

parse_line-IsChecked :
    (line : Bytes) (s t : List Bytes) → IsChecked s → parse_line line s ≡ some t → IsChecked t
unfolding parse_line
parse_line-IsChecked line s t r e = elim (Bool-cases (all_valid line)) [
  | inr n ↦ absurd (ground arith)
  | inl v ↦ elim (Bool-cases (contains_name line s)) [
    | inl c ↦ absurd (ground arith)
    | inr c ↦ subst IsChecked (ground arith) (record {
      distinct = Distinct-append line s r.distinct c;
      valid = All-append (λ n. all_valid n ≡ true) s (line ∷ []) r.valid (v, tt);
    })
  ]
]

-- The table that the code builds, entry by entry.
abbrev none_entry : TableEntry
none_entry = none

abbrev pub empty_table : List TableEntry
empty_table = replicate (max_natives + 1) none

abbrev pub entry_for : ℕ → Option Bytes → TableEntry
entry_for i none = none
entry_for i (some name) = some (name, i)

abbrev pub entry_of : List Bytes → ℕ → TableEntry
entry_of natives i = entry_for i (get_elem? natives i)

write_entry : List Bytes → ℕ → List TableEntry → List TableEntry
write_entry natives i table = elim (get_elem? natives i) [
  | none ↦ table
  | some name ↦ set table i (some (name, i))
]

write_entry_self :
    (natives : List Bytes) (i : ℕ) (table : List TableEntry)
    → i < length table
    → get_elem? table i ≡ some none
    → get_elem? (write_entry natives i table) i ≡ some (entry_of natives i)
unfolding write_entry
write_entry_self natives i table h e = elim (Option-cases (get_elem? natives i)) [
  | inl n ↦ rw (n, write_entry) e
  | inr (name, f) ↦ rw (f, write_entry) (get_elem?-set_self table i (some (name, i)) h)
]

write_entry-ne :
    (natives : List Bytes) (i j : ℕ) (table : List TableEntry)
    → i ≢ j
    → get_elem? (write_entry natives i table) j ≡ get_elem? table j
unfolding write_entry
write_entry-ne natives i j table h = elim (Option-cases (get_elem? natives i)) [
  | inl n ↦ rw (n, write_entry)
  | inr (name, f) ↦ rw (f, write_entry) (get_elem?-set_ne table i j (some (name, i)) h)
]

length-write_entry :
    (natives : List Bytes) (i : ℕ) (table : List TableEntry)
    → length (write_entry natives i table) ≡ length table
unfolding write_entry
length-write_entry natives i table = elim (Option-cases (get_elem? natives i)) [
  | inl n ↦ rw (n, write_entry)
  | inr (name, f) ↦ rw (f, write_entry) (length-set table i (some (name, i)))
]

register-suc :
    (n : ℕ) (natives : List Bytes) (table : List TableEntry)
    → register (suc n) natives table
      ≡ register n natives (write_entry natives (max_natives - suc n) table)
unfolding register write_entry
register-suc n natives table = refl

-- What is written stays, and what is not written is as it was.
register-before :
    (n i : ℕ) (natives : List Bytes) (table : List TableEntry)
    → n ≤ max_natives
    → i < max_natives - n
    → get_elem? (register n natives table) i ≡ get_elem? table i
register-before zero i natives table h lt = unfold register in refl
register-before (suc n) i natives table h lt = rw register-suc (
    register-before n i natives _ (omega arith) (omega arith)
    ∙ write_entry-ne natives (max_natives - suc n) i table (omega arith))

register-at :
    (n i : ℕ) (natives : List Bytes) (table : List TableEntry)
    → n ≤ max_natives
    → max_natives - n ≤ i
    → i < max_natives
    → i < length table
    → get_elem? table i ≡ some none
    → get_elem? (register n natives table) i ≡ some (entry_of natives i)
register-at zero i natives table h lo hi l e = absurd (omega arith)
register-at (suc n) i natives table h lo hi l e = elim (ℕ_discrete i (max_natives - suc n)) [
  | yes q ↦ rw register-suc (
      register-before n i natives _ (omega arith) (omega arith)
      ∙ ap (λ k. get_elem? (write_entry natives k table) i) (sym q)
      ∙ write_entry_self natives i table l e)
  | no q ↦ rw register-suc (
      register-at n i natives _ (omega arith) (omega arith) hi
        (omega (arith, length-write_entry natives (max_natives - suc n) table))
        (write_entry-ne natives (max_natives - suc n) i table (λ p. q (sym p)) ∙ e))
]

-- The entry behind the last one is never written.
register-behind :
    (n i : ℕ) (natives : List Bytes) (table : List TableEntry)
    → n ≤ max_natives
    → max_natives ≤ i
    → get_elem? (register n natives table) i ≡ get_elem? table i
register-behind zero i natives table h hi = unfold register in refl
register-behind (suc n) i natives table h hi = rw register-suc (
    register-behind n i natives _ (omega arith) hi
    ∙ write_entry-ne natives (max_natives - suc n) i table (omega arith))

register-at_all :
    (natives : List Bytes) (i : ℕ)
    → length natives ≤ max_natives
    → i ≤ max_natives
    → get_elem? (register max_natives natives empty_table) i ≡ some (entry_of natives i)
register-at_all natives i l h = elim (dec_lt i max_natives) [
  | yes lt ↦
      register-at max_natives i natives empty_table (omega arith) (omega arith) lt
        (omega (arith, length-replicate (max_natives + 1) (none_entry)))
        (get_elem?-replicate (max_natives + 1) i none (omega arith))
  | no ge ↦ rw (get_elem?-over natives i (omega arith)) (
      register-behind max_natives i natives empty_table (omega arith) (omega arith)
      ∙ get_elem?-replicate (max_natives + 1) i none (omega arith))
]

-- What a file that is accepted gives.
record Registers (content : Bytes) (l : Loaded) : Type 0 where
  lines : each_line parse_line (split_lines content) [] ≡ some l.natives
  bounded : length l.natives ≤ max_natives
  entries : (i : ℕ) → i ≤ max_natives → get_elem? l.table i ≡ some (entry_of l.natives i)

register_all-Registers :
    (content : Bytes) (natives : List Bytes) (l : Loaded)
    → each_line parse_line (split_lines content) [] ≡ some natives
    → register_all natives ≡ some l
    → Registers content l
unfolding register_all
register_all-Registers content natives l lines e =
    elim (Bool-cases (ltb max_natives (length natives))) [
      | inl over ↦ absurd (ground arith)
      | inr fits ↦ subst (Registers content) (ground arith) (record {
        lines = lines;
        bounded = ground arith;
        entries = λ i. register-at_all natives i (ground arith);
      })
    ]

abbrev pub then_register : Option (List Bytes) → Option Loaded
then_register none = none
then_register (some natives) = register_all natives

parse-loop :
    (c : ℕ) (s : Bytes)
    → parse (c ∷ s) ≡ then_register (each_line parse_line (split_lines (c ∷ s)) [])
unfolding parse
parse-loop c s =
    rw (line_loop-each_line parse_line (suc (length (c ∷ s))) (c ∷ s) 0 [] (omega arith))
      (elim (Option-cases (each_line parse_line (split_lines (c ∷ s)) [])) [
        | inl n ↦ rw n (ground arith)
        | inr (natives, f) ↦ rw f (ground arith)
      ])

empty_file : (l : Loaded) → parse [] ≡ some l → record { natives = []; table = empty_table } ≡ l
unfolding parse
empty_file l e = ground (arith, e)

parse-Registers : (content : Bytes) (l : Loaded) → parse content ≡ some l → Registers content l
parse-Registers [] l e = subst (Registers []) (empty_file l e) (record {
  lines = each_line-empty parse_line [];
  bounded = omega arith;
  entries = λ i h. get_elem?-replicate (max_natives + 1) i none (omega arith);
})
parse-Registers (c ∷ s) l e = elim (Option-cases (each_line parse_line (split_lines (c ∷ s)) [])) [
  | inl n ↦ absurd (ground (arith, parse-loop c s))
  | inr (natives, f) ↦
      register_all-Registers (c ∷ s) natives l f (sym (parse-loop c s ∙ ap then_register f) ∙ e)
]

-- An ASCII letter, a digit or an underscore.
abbrev pub IsWordByte : ℕ → Type 0
IsWordByte c = ((65 ≤ c) × (c ≤ 90)) ⊎ (((97 ≤ c) × (c ≤ 122)) ⊎ (((48 ≤ c) × (c ≤ 57)) ⊎ (c ≡ 95)))

-- No two places of the list have the same name.
abbrev pub AllDifferent : List Bytes → Type 0
AllDifferent [] = Unit
AllDifferent (n ∷ ns) = All (λ m. n ≢ m) ns × AllDifferent ns

pub record IsRegistry (natives : List Bytes) : Type 0 where
  pub different : AllDifferent natives
  pub words : All (λ n. All IsWordByte n) natives

is_valid_character-IsWordByte : (c : ℕ) → is_valid_character c ≡ true → IsWordByte c
unfolding is_valid_character
is_valid_character-IsWordByte c h = ground arith

all_valid-words : (n : Bytes) → all_valid n ≡ true → All IsWordByte n
unfolding all_valid
all_valid-words [] h = tt
all_valid-words (c ∷ cs) h =
    let parts : (is_valid_character c ≡ true) × (all_valid cs ≡ true) = ground arith in
    (is_valid_character-IsWordByte c parts.0, all_valid-words cs parts.1)

contains_head :
    (m n : Bytes) (ns : List Bytes) → contains_name n (m ∷ ns) ≡ false → bytes_eq m n ≡ false
unfolding contains_name
contains_head m n ns h = ground (arith, h)

contains_name-different :
    (n : Bytes) (ns : List Bytes) → contains_name n ns ≡ false → All (λ m. n ≢ m) ns
unfolding contains_name
contains_name-different n [] h = tt
contains_name-different n (m ∷ ns) h = (
  (λ e. false≢true (sym (contains_head m n ns h) ∙ (bytes_eq_iff m n).1 (sym e))),
  contains_name-different n ns (ground (arith, h)),
)

Distinct-AllDifferent : (ns : List Bytes) → Distinct ns → AllDifferent ns
Distinct-AllDifferent [] d = tt
Distinct-AllDifferent (n ∷ ns) d = (contains_name-different n ns d.0, Distinct-AllDifferent ns d.1)

IsChecked-IsRegistry : (ns : List Bytes) → IsChecked ns → IsRegistry ns
IsChecked-IsRegistry ns h = record {
  different = Distinct-AllDifferent ns h.distinct;
  words = All-imp all_valid-words ns h.valid;
}

-- A file that is accepted gives at most 255 names, no two of them the same, each made of ASCII
-- letters, digits and underscores; a name may begin with a digit.
pub parse-IsRegistry :
    (content : Bytes) (l : Loaded)
    → parse content ≡ some l
    → IsRegistry l.natives × length l.natives ≤ 255
parse-IsRegistry content l e =
    let r = parse-Registers content l e in
    (
      IsChecked-IsRegistry l.natives (
          each_line_keeps IsChecked parse_line parse_line-IsChecked (split_lines content) []
            l.natives (record { distinct = tt; valid = tt }) r.lines),
      r.bounded,
    )

-- In the table of a file that is accepted, entry i names native i, and the trampoline stored there
-- asks for that same native; the entries behind the last native, of which there is at least one,
-- are zeros.
pub parse-table :
    (content : Bytes) (l : Loaded) (i : ℕ)
    → parse content ≡ some l
    → i ≤ max_natives
    → get_elem? l.table i ≡ some (entry_for i (invoke l.natives i))
      × (length l.natives ≤ i → get_elem? l.table i ≡ some none)
unfolding invoke
parse-table content l i e h =
    let r = parse-Registers content l e in
    (
      r.entries i h,
      λ behind. r.entries i h ∙ ap (λ o. some (entry_for i o)) (get_elem?-over l.natives i behind),
    )
