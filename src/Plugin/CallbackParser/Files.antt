-- ===== src/Plugin/CallbackParser/Files.antt =====
-- `CallbackParser::Parse` of src/playground/plugin/callback_parser.cc on whole files: its loop
-- against a walk over the lines, and what holds of every callback that it stores.
use playgroundjs_plugin.Plugin.Lines.{
  each_line, split_lines, line_loop-each_line, each_line_keeps, each_line-empty,
}
use playgroundjs_plugin.Plugin.CallbackParser.{
  parse, push_line, argument_loop, apply_annotations, Callback, parse_annotations, parse_line,
  parse_argument, apply_annotation, parse_declaration, annotation_loop, trim, blank_callback,
  substr, find_char, parse_arguments, argument_text, remove_prefix,
}
use playgroundjs_plugin.Common.{
  ◌≡◌, length, Bytes, some, List, [], ◌∷◌, suc, arith, refl, All, Option-cases, ℕ, drop, inl, ◌≤◌,
  sym, inr, ◌∙◌, ◌&&◌, false, subst, All-append, ◌+◌, none, zero,
}

-- The loop over offsets takes the lines of the file one after another, and always ends: what it
-- returns is what a walk over the text cut at its line feeds returns, for every text.
pub parse-each_line :
    (content : Bytes) → parse content ≡ each_line push_line (split_lines content) []
unfolding parse
parse-each_line [] = sym (each_line-empty push_line [])
parse-each_line (c ∷ s) =
    rw (line_loop-each_line push_line (suc (length (c ∷ s))) (c ∷ s) 0 [] (omega arith))
      (ground arith)

-- What every parsed callback is.
pub record IsSane (callback : Callback) : Type 0 where
  pub exclusive : (callback.cancelable && callback.deferred) ≡ false
  pub small_return : callback.return_value ≤ 1

apply_annotations-small :
    (annotations : List Bytes) (callback : Callback)
    → callback.return_value ≤ 1
    → (apply_annotations annotations callback).return_value ≤ 1
unfolding apply_annotations apply_annotation
apply_annotations-small [] callback h = h
apply_annotations-small (a ∷ rest) callback h =
    apply_annotations-small rest (apply_annotation a callback) (ground arith)

parse_annotations-IsSane :
    (line : Bytes) (callback : Callback) (rest : Bytes) (marked : Callback)
    → IsSane callback
    → parse_annotations line callback ≡ some (rest, marked)
    → IsSane marked
unfolding parse_annotations
parse_annotations-IsSane line callback rest marked h e = ground (
  arith,
  apply_annotations-small (annotation_loop line (drop 1 line) 1 1 []).0 callback h.small_return,
)

parse_argument-IsSane :
    (input : Bytes) (callback parsed : Callback)
    → IsSane callback
    → parse_argument input callback ≡ some parsed
    → IsSane parsed
unfolding parse_argument
parse_argument-IsSane input callback parsed h e = ground arith

argument_loop-IsSane :
    (fuel : ℕ) (line : Bytes) (callback parsed : Callback)
    → IsSane callback
    → argument_loop fuel line callback ≡ some (some parsed)
    → IsSane parsed
unfolding argument_loop
argument_loop-IsSane zero line callback parsed h e = absurd (ground arith)
argument_loop-IsSane (suc fuel) line callback parsed h e =
    elim (Option-cases (parse_argument (substr line 0 (find_char line b',' 0)) callback)) [
      | inl n ↦ ground arith
      | inr (c, f) ↦
          let sane = parse_argument-IsSane (substr line 0 (find_char line b',' 0)) callback c h f in
          elim (Option-cases (find_char line b',' 0)) [
            | inl n ↦ ground arith
            | inr (o, g) ↦
                ground
                  (arith, argument_loop-IsSane fuel (trim (substr line (o + 1) none)) c parsed sane)
          ]
    ]

parse_arguments-IsSane :
    (inside : Bytes) (named callback : Callback)
    → IsSane named
    → parse_arguments inside named ≡ some callback
    → IsSane callback
unfolding parse_arguments
parse_arguments-IsSane inside named callback h e =
    ground (arith, argument_loop-IsSane (suc (length inside)) inside named callback h)

parse_declaration-IsSane :
    (line : Bytes) (candidate callback : Callback)
    → IsSane candidate
    → parse_declaration line candidate ≡ some callback
    → IsSane callback
unfolding parse_declaration
parse_declaration-IsSane line candidate callback h e =
    let d = trim (substr line 8 none) in
    elim (Option-cases (find_char d b'(' 0)) [
      | inl n ↦ ground arith
      | inr (o, f) ↦ elim (Option-cases (argument_text (remove_prefix d (o + 1)))) [
        | inl n ↦ ground arith
        | inr (inside, g) ↦
            parse_arguments-IsSane inside (record candidate { name = trim (substr d 0 (some o)) })
              callback (record { exclusive = h.exclusive; small_return = h.small_return })
              (ground arith)
      ]
    ]

parse_line-IsSane :
    (line : Bytes) (callback : Callback) → parse_line line ≡ some callback → IsSane callback
unfolding parse_line
parse_line-IsSane line callback e =
    elim (Option-cases (parse_annotations (trim line) blank_callback)) [
      | inl n ↦ ground arith
      | inr ((rest, marked), f) ↦
          parse_declaration-IsSane rest marked callback
            (parse_annotations-IsSane (trim line) blank_callback rest marked
              (record { exclusive = refl; small_return = omega arith }) f)
            (ground arith)
    ]

abbrev AllSane : List Callback → Type 0
AllSane = All IsSane

push_line-AllSane :
    (line : Bytes) (s t : List Callback) → AllSane s → push_line line s ≡ some t → AllSane t
unfolding push_line
push_line-AllSane line s t h e = elim (Option-cases (parse_line line)) [
  | inl n ↦ absurd (ground arith)
  | inr (c, f) ↦
      subst AllSane (ground arith) (All-append IsSane s (c ∷ []) h (parse_line-IsSane line c f, tt))
]

-- No file gives a callback that is both cancelable and deferred, nor one whose return value is
-- neither 0 nor 1.
pub parse-IsSane :
    (content : Bytes) (callbacks : List Callback)
    → parse content ≡ some callbacks
    → All IsSane callbacks
parse-IsSane content callbacks e =
    each_line_keeps AllSane push_line push_line-AllSane (split_lines content) [] callbacks tt
      (sym (parse-each_line content) ∙ e)
