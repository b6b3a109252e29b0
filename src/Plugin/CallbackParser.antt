-- ===== src/Plugin/CallbackParser.antt =====
-- src/playground/plugin/callback_parser.cc: the file of callbacks, one Pawn declaration to a line.
-- A byte behind the end of a line is read as no `]`: what follows a trimmed line in its buffer is
-- white space or the terminating NUL.
use playgroundjs_plugin.Plugin.Lines.{line_loop}
pub mod Fuel
pub mod Print
pub mod Arguments
pub mod RoundTrip
pub mod Marks
pub mod Annotated
pub mod Files
use playgroundjs_plugin.Base.StringPiece.{find_char, substr, starts_with, remove_prefix, ends_with}
use playgroundjs_plugin.Plugin.Callback.{
  CallbackArgumentType, type_int, type_float, type_string, Callback, blank_callback,
}
use playgroundjs_plugin.Plugin.Trim.{trim}
use playgroundjs_plugin.Common.{
  ℕ, zero, suc, ◌+◌, ◌-◌, Bool, true, false, ◌||◌, ◌&&◌, not, Option, none, some, List, [], ◌∷◌,
  ◌++◌, ◌==◌, if◌then◌else◌, Bytes, codes, bytes_eq, length, get_elem?, drop,
}

-- The loop of `ParseAnnotations` from `index` on, over the bytes from there: the annotations
-- found, in order, and the index at which the loop ends. The source keeps a sorted set; nothing
-- below depends on the order or on repetitions.
unfoldable pub annotation_loop : Bytes → Bytes → ℕ → ℕ → List Bytes → List Bytes × ℕ
annotation_loop line [] index last_offset annotations = (annotations, index)
annotation_loop line (character ∷ rest) index last_offset annotations =
    let found = annotations ++ (trim (substr line last_offset (some (index - last_offset))) ∷ []) in
    let next = annotation_loop line rest (index + 1) (index + 1) found in
    let skip = annotation_loop line rest (index + 1) last_offset annotations in
    if character == b',' || character == b']'
    then (if character == b']' then (found, index) else next)
    else skip

-- One round of the loop over the annotations found.
unfoldable pub apply_annotation : Bytes → Callback → Callback
apply_annotation annotation callback =
    if bytes_eq annotation (codes "Cancelable")
    then record callback { cancelable = true }
    else if bytes_eq annotation (codes "Deferred")
    then record callback { deferred = true }
    else if bytes_eq annotation (codes "ReturnOne")
    then record callback { return_value = 1 }
    else callback

unfoldable pub apply_annotations : List Bytes → Callback → Callback
apply_annotations [] callback = callback
apply_annotations (a ∷ rest) callback = apply_annotations rest (apply_annotation a callback)

-- The line behind the annotations and the callback with them, or `none` where the source returns
-- false. The loop's `index` starts at 0 and is incremented before the first test.
unfoldable pub parse_annotations : Bytes → Callback → Option (Bytes × Callback)
parse_annotations line callback =
    if not (starts_with line (codes "["))
    then some (line, callback)
    else let (annotations, index) = annotation_loop line (drop 1 line) 1 1 [] in
      let marked = apply_annotations annotations callback in
      if marked.cancelable && marked.deferred then none else elim (get_elem? line index) [
        | none ↦ none
        | some c ↦
            if not (c == b']') then none else some (trim (substr line (index + 1) none), marked)
      ]

-- The type name in front of an argument, and the argument behind it.
unfoldable pub argument_type : Bytes → CallbackArgumentType × Bytes
argument_type argument = elim (find_char argument b':' 0) [
  | none ↦ (type_int, argument)
  | some type_offset ↦ (
    if bytes_eq (substr argument 0 (some type_offset)) (codes "Float")
        then type_float
        else type_int,
    trim (substr argument (type_offset + 1) none),
  )
]

unfoldable pub is_int : CallbackArgumentType → Bool
is_int type_int = true
is_int _ = false

-- The rest of `ParseArgument`, on the type read and the argument behind it.
unfoldable pub store_argument : CallbackArgumentType → Bytes → Callback → Option Callback
unfolding is_int
store_argument type argument callback = elim (find_char argument b'[' 0) [
  | none ↦ some (record callback { arguments = callback.arguments ++ ((argument, type) ∷ []) })
  | some string_offset ↦ elim (find_char argument b']' string_offset) [
    | none ↦ none
    | some _ ↦
        if not (is_int type)
        then none
        else some (record callback {
          arguments =
              callback.arguments
              ++ ((trim (substr argument 0 (some string_offset)), type_string) ∷ []);
        })
  ]
]

-- `ParseArgument`
unfoldable pub parse_argument : Bytes → Callback → Option Callback
unfolding store_argument
parse_argument input_argument callback =
    let (type, argument) = argument_type (trim input_argument) in
    store_argument type argument callback

-- `while (parsing_line.length())`, with fuel for the rounds: the inner `none` is a refused
-- argument, the outer one a lack of fuel.
unfoldable pub argument_loop : ℕ → Bytes → Callback → Option (Option Callback)
argument_loop zero parsing_line callback = none
argument_loop (suc fuel) parsing_line callback =
    if length parsing_line == 0
    then some (some callback)
    else let separator_offset = find_char parsing_line b',' 0 in
      elim (parse_argument (substr parsing_line 0 separator_offset) callback) [
        | none ↦ some none
        | some callback' ↦ elim separator_offset [
          | none ↦ some (some callback')
          | some offset ↦
              argument_loop fuel (trim (substr parsing_line (offset + 1) none)) callback'
        ]
      ]

-- The text between the parentheses of a declaration, from what stands behind the opening one, or
-- `none` where the closing one is missing.
unfoldable pub argument_text : Bytes → Option Bytes
argument_text rest =
    let line =
      if ends_with rest (codes ";") then trim (substr rest 0 (some (length rest - 1))) else rest in
    if not (ends_with line (codes ")"))
    then none
    else some (trim (substr line 0 (some (length line - 1))))

-- The loop over the arguments with as much fuel as the text has bytes, and one more.
unfoldable pub parse_arguments : Bytes → Callback → Option Callback
parse_arguments inside named = elim (argument_loop (suc (length inside)) inside named) [
  | none ↦ none
  | some parsed ↦ parsed
]

-- What `ParseLine` does behind the annotations.
unfoldable pub parse_declaration : Bytes → Callback → Option Callback
parse_declaration parsing_line candidate =
    if not (starts_with parsing_line (codes "forward "))
    then none
    else let declaration = trim (substr parsing_line 8 none) in
      elim (find_char declaration b'(' 0) [
        | none ↦ none
        | some arguments_offset ↦
            let named = record candidate {
              name = trim (substr declaration 0 (some arguments_offset));
            } in
            elim (argument_text (remove_prefix declaration (arguments_offset + 1))) [
              | none ↦ none
              | some inside ↦ parse_arguments inside named
            ]
      ]

-- `ParseLine`: the callback that the source moves into `*callback`, or `none` for false.
unfoldable pub parse_line : Bytes → Option Callback
parse_line line = elim (parse_annotations (trim line) blank_callback) [
  | none ↦ none
  | some (parsing_line, candidate) ↦ parse_declaration parsing_line candidate
]

-- One round of the loop of `Parse`: the callback goes to the end of `callbacks_`.
unfoldable pub push_line : Bytes → List Callback → Option (List Callback)
push_line line callbacks = elim (parse_line line) [
  | none ↦ none
  | some callback ↦ some (callbacks ++ (callback ∷ []))
]

-- `Parse` and `FromString`: the callbacks of a text, or `none` if a line is refused.
unfoldable pub parse : Bytes → Option (List Callback)
parse content =
    if length content == 0
    then some []
    else elim (line_loop push_line (suc (length content)) content (some 0) []) [
      | none ↦ none
      | some parsed ↦ parsed
    ]

-- `Find`: the first callback of that name.
unfoldable pub find : Bytes → List Callback → Option Callback
find name [] = none
find name (callback ∷ rest) = if bytes_eq callback.name name then some callback else find name rest
