-- ===== src/Plugin/CallbackParser/Annotated.antt =====
-- `ParseAnnotations` of src/playground/plugin/callback_parser.cc reads the annotations in front of
-- a declaration.
use playgroundjs_plugin.Plugin.CallbackParser.Marks.{marked_by, apply_annotations-marked_by}
use playgroundjs_plugin.Plugin.Solid.{IsSolid-one, IsSolid-join}
use playgroundjs_plugin.Plugin.CallbackParser.RoundTrip.{
  declared, print_declaration-IsSolid, parse_declaration-print,
}
use playgroundjs_plugin.Plugin.Lines.{drop_hit}
use playgroundjs_plugin.Base.StringPiece.{
  substr_middle, get_elem?-append_right, starts_with, substr_rest, starts_with-append,
}
use playgroundjs_plugin.Plugin.CallbackParser.Arguments.{trim_space, IsNamed}
use playgroundjs_plugin.Plugin.Trim.{IsSolid, trim_id, is_blank}
use playgroundjs_plugin.Plugin.CallbackParser.{
  annotation_loop, trim, substr, Callback, parse_annotations, parse_line, CallbackArgumentType,
  apply_annotations, blank_callback,
}
use playgroundjs_plugin.Plugin.CallbackParser.Print.{
  print_annotations, IsName, print_annotated, print_declaration,
}
use playgroundjs_plugin.Common.{
  Bytes, [], ◌≡◌, List, All, ℕ, ◌++◌, ◌∷◌, ◌==◌, length, get_elem?, ◌||◌, ◌+◌, false, some, ap,
  drop, ◌-◌, refl, arith, ◌∙◌, sym, codes, All-append, append_assoc, length-append, subst, Option,
  true, if◌then◌else◌, ◌&&◌, none, Bool-cases, inl, inr,
}

-- The text of an annotation: no white space at its ends, and neither of the two separators.
pub record IsAnnotation (a : Bytes) : Type 0 where
  pub solid : IsSolid a
  pub unbroken : All (λ c. (c == b',' || c == b']') ≡ false) a

annotation_loop-skip :
    (line seg rest : Bytes) (i o : ℕ) (found : List Bytes)
    → All (λ c. (c == b',' || c == b']') ≡ false) seg
    → annotation_loop line (seg ++ rest) i o found
      ≡ annotation_loop line rest (i + length seg) o found
unfolding annotation_loop
annotation_loop-skip line [] rest i o found h =
    ap (λ k. annotation_loop line rest k o found) (omega arith)
annotation_loop-skip line (c ∷ seg) rest i o found h = rw (h.0) (
    annotation_loop-skip line seg rest (i + 1) o found h.1
    ∙ ap (λ k. annotation_loop line rest k o found) (omega arith))

annotation_loop-comma :
    (line rest : Bytes) (i o : ℕ) (found : List Bytes)
    → annotation_loop line (b',' ∷ rest) i o found
      ≡ annotation_loop line rest
          (i + 1)
          (i + 1)
          (found ++ (trim (substr line o (some (i - o))) ∷ []))
unfolding annotation_loop
annotation_loop-comma line rest i o found = refl

annotation_loop-close :
    (line rest : Bytes) (i o : ℕ) (found : List Bytes)
    → annotation_loop line (b']' ∷ rest) i o found
      ≡ (found ++ (trim (substr line o (some (i - o))) ∷ []), i)
unfolding annotation_loop
annotation_loop-close line rest i o found = refl

-- The padding in front of an annotation: nothing, or one space.
data IsPad : Bytes → Type 0 where
  nothing : IsPad []
  space : IsPad (b' ' ∷ [])

trim-pad : (pad a : Bytes) → IsPad pad → IsSolid a → trim (pad ++ a) ≡ a
trim-pad _ a nothing s = trim_id a s
trim-pad _ a space s = trim_space a s

pad-unbroken : (pad : Bytes) → IsPad pad → All (λ c. (c == b',' || c == b']') ≡ false) pad
pad-unbroken _ nothing = tt
pad-unbroken _ space = (refl, tt)

-- The slice between two separators is the annotation.
slice_annotation :
    (line front pad a rest : Bytes)
    → line ≡ front ++ ((pad ++ a) ++ rest)
    → IsPad pad
    → IsSolid a
    → trim (substr line (length front) (some (length front + length (pad ++ a) - length front))) ≡ a
slice_annotation line front pad a rest e p s =
    let n : length front + length (pad ++ a) - length front ≡ length (pad ++ a) = omega arith in
    rw (n, e, substr_middle front (pad ++ a) rest) (trim-pad pad a p s)

-- What the loop returns on the annotations that are printed in front of `tail`.
record Reads (line tail : Bytes) (annotations : List Bytes) (result : List Bytes × ℕ) : Type 0 where
  names : result.0 ≡ annotations
  closes : get_elem? line result.1 ≡ some b']'
  behind : drop (result.1 + 1) line ≡ tail

-- The last annotation, with its bracket.
Reads-close :
    (line front pad a tail : Bytes) (found : List Bytes)
    → line ≡ front ++ ((pad ++ a) ++ (b']' ∷ tail))
    → IsPad pad
    → IsAnnotation a
    → Reads line tail
        (found ++ (a ∷ []))
        (annotation_loop line ((pad ++ a) ++ (b']' ∷ tail)) (length front) (length front) found)
Reads-close line front pad a tail found e p n =
    subst (Reads line tail (found ++ (a ∷ []))) (sym run) (record {
      names =
          ap (λ u. found ++ (u ∷ [])) (slice_annotation line front pad a (b']' ∷ tail) e p n.solid);
      closes =
          subst (λ u. get_elem? u place ≡ some b']') (sym e')
            (ap (get_elem? (before ++ (b']' ∷ tail))) place_eq
              ∙ get_elem?-append_right before (b']' ∷ tail) 0);
      behind =
          subst (λ u. drop (place + 1) u ≡ tail) (sym e')
            (ap (λ k. drop k (before ++ (b']' ∷ tail))) place_suc ∙ drop_hit before b']' tail);
    })
  where
    before : Bytes
    before = front ++ (pad ++ a)

    place : ℕ
    place = length front + length (pad ++ a)

    e' : line ≡ before ++ (b']' ∷ tail)
    e' = e ∙ sym (append_assoc front (pad ++ a) (b']' ∷ tail))

    place_eq : place ≡ length before + 0
    place_eq = omega (arith, length-append front (pad ++ a))

    place_suc : place + 1 ≡ length before + 1
    place_suc = omega (arith, length-append front (pad ++ a))

    run :
        annotation_loop line ((pad ++ a) ++ (b']' ∷ tail)) (length front) (length front) found
        ≡ (found ++ (trim (substr line (length front) (some (place - length front))) ∷ []), place)
    run =
        annotation_loop-skip line (pad ++ a) (b']' ∷ tail) (length front) (length front) found
          (All-append (λ c. (c == b',' || c == b']') ≡ false) pad a (pad-unbroken pad p) n.unbroken)
        ∙ annotation_loop-close line tail place (length front) found

-- An annotation with a comma behind it.
annotation_loop-next :
    (line front pad a rest : Bytes) (found : List Bytes)
    → line ≡ front ++ ((pad ++ a) ++ (b',' ∷ rest))
    → IsPad pad
    → IsAnnotation a
    → annotation_loop line ((pad ++ a) ++ (b',' ∷ rest)) (length front) (length front) found
      ≡ annotation_loop line rest
          (length front + length (pad ++ a) + 1)
          (length front + length (pad ++ a) + 1)
          (found ++ (a ∷ []))
annotation_loop-next line front pad a rest found e p n =
    let place = length front + length (pad ++ a) in
    annotation_loop-skip line (pad ++ a) (b',' ∷ rest) (length front) (length front) found
      (All-append (λ c. (c == b',' || c == b']') ≡ false) pad a (pad-unbroken pad p) n.unbroken)
    ∙ annotation_loop-comma line rest place (length front) found
    ∙ ap (λ u. annotation_loop line rest (place + 1) (place + 1) (found ++ (u ∷ [])))
        (slice_annotation line front pad a (b',' ∷ rest) e p n.solid)

annotation_loop-print :
    (line front pad a : Bytes) (annotations : List Bytes) (tail : Bytes) (found : List Bytes)
    → line ≡ front ++ (pad ++ (print_annotations a annotations ++ tail))
    → IsPad pad
    → IsAnnotation a
    → All IsAnnotation annotations
    → Reads line tail (found ++ (a ∷ annotations)) (
        annotation_loop line
          (pad ++ (print_annotations a annotations ++ tail))
          (length front)
          (length front)
          found)
unfolding print_annotations
annotation_loop-print line front pad a [] tail found e p n h =
    let shape : pad ++ ((a ++ codes "]") ++ tail) ≡ (pad ++ a) ++ (b']' ∷ tail) =
      simp append_assoc in
    rw shape (Reads-close line front pad a tail found (e ∙ ap (◌++◌ front) shape) p n)
annotation_loop-print line front pad a (b ∷ rest) tail found e p n h =
    let more : Bytes = print_annotations b rest ++ tail in
    let shape : pad ++ ((a ++ (b',' ∷ b' ' ∷ print_annotations b rest)) ++ tail)
        ≡ (pad ++ a) ++ (b',' ∷ b' ' ∷ more) =
      simp append_assoc in
    let front' : Bytes = front ++ ((pad ++ a) ++ (b',' ∷ [])) in
    let e' : line ≡ front ++ ((pad ++ a) ++ (b',' ∷ b' ' ∷ more)) = e ∙ ap (◌++◌ front) shape in
    let place : length front + length (pad ++ a) + 1 ≡ length front' = omega (
      arith,
      length-append front ((pad ++ a) ++ (b',' ∷ [])),
      length-append (pad ++ a) (b',' ∷ []),
    ) in
    rw (shape, annotation_loop-next line front pad a (b' ' ∷ more) found e' p n, place)
      (subst
        (λ u.
          Reads line tail u (
            annotation_loop line (b' ' ∷ more) (length front') (length front') (found ++ (a ∷ []))))
        (append_assoc found (a ∷ []) (b ∷ rest))
        (annotation_loop-print line front' (b' ' ∷ []) b rest tail (found ++ (a ∷ []))
          (e' ∙ simp append_assoc) space h.0 h.1))

-- What a line makes of its annotations: nothing if they exclude one another.
abbrev pub unless_exclusive : Callback → Callback → Option Callback
unless_exclusive marked callback =
    if marked.cancelable && marked.deferred then none else some callback

parse_annotations-eq :
    (line tail declaration : Bytes) (annotations : List Bytes) (callback : Callback)
    → starts_with line (codes "[") ≡ true
    → Reads line tail annotations (annotation_loop line (drop 1 line) 1 1 [])
    → trim tail ≡ declaration
    → parse_annotations line callback ≡ (
        let marked = apply_annotations annotations callback in
        if marked.cancelable && marked.deferred then none else some (declaration, marked))
unfolding parse_annotations
parse_annotations-eq line tail declaration annotations callback s r t = rw (
  s,
  parse_annotations,
  r.names,
  r.closes,
  substr_rest line ((annotation_loop line (drop 1 line) 1 1 []).1 + 1),
  r.behind,
  t,
  r.names,
)

parse_line-applied :
    (a : Bytes) (annotations : List Bytes) (name : Bytes)
    (arguments : List (Bytes × CallbackArgumentType))
    → IsAnnotation a
    → All IsAnnotation annotations
    → IsName name
    → All IsNamed arguments
    → parse_line (print_annotated a annotations (print_declaration name arguments))
      ≡ unless_exclusive
          (apply_annotations (a ∷ annotations) blank_callback)
          (declared name arguments (apply_annotations (a ∷ annotations) blank_callback))
unfolding parse_line
parse_line-applied a annotations name arguments n h m k =
    rw
      (
        trim_id line line_solid,
        parse_line,
        parse_annotations-eq line (b' ' ∷ declaration) declaration (a ∷ annotations) blank_callback
            (unfold print_annotated in
              starts_with-append (codes "[")
                (print_annotations a annotations ++ (b' ' ∷ declaration)))
            (unfold print_annotated in
              annotation_loop-print line (codes "[") [] a annotations (b' ' ∷ declaration) [] refl
                nothing n h)
            (trim_space declaration solid),
      )
      (elim (Bool-cases (marked.cancelable && marked.deferred)) [
        | inl e ↦ rw e
        | inr e ↦ rw e (parse_declaration-print name arguments marked m k)
      ])
  where
    marked : Callback
    marked = apply_annotations (a ∷ annotations) blank_callback

    declaration : Bytes
    declaration = print_declaration name arguments

    solid : IsSolid declaration
    solid = print_declaration-IsSolid name arguments m

    line : Bytes
    line = print_annotated a annotations declaration

    line_solid : IsSolid line
    line_solid =
        unfold print_annotated is_blank in
        subst (λ u. IsSolid (codes "[" ++ u))
          (append_assoc (print_annotations a annotations) (b' ' ∷ []) declaration)
          (IsSolid-join (print_annotations a annotations ++ (b' ' ∷ [])) (IsSolid-one b'[' refl)
            solid)

-- A line with annotations in front of its declaration is read back: it is cancelable if one of them
-- is `Cancelable`, deferred if one is `Deferred`, and returns 1 if one is `ReturnOne`, other
-- annotations set nothing, and the line is refused if it is both cancelable and deferred.
pub parse_line-print_annotated :
    (a : Bytes) (annotations : List Bytes) (name : Bytes)
    (arguments : List (Bytes × CallbackArgumentType))
    → IsAnnotation a
    → All IsAnnotation annotations
    → IsName name
    → All IsNamed arguments
    → parse_line (print_annotated a annotations (print_declaration name arguments))
      ≡ unless_exclusive
          (marked_by (a ∷ annotations) blank_callback)
          (declared name arguments (marked_by (a ∷ annotations) blank_callback))
parse_line-print_annotated a annotations name arguments n h m k =
    parse_line-applied a annotations name arguments n h m k
    ∙ ap (λ marked. unless_exclusive marked (declared name arguments marked))
        (apply_annotations-marked_by (a ∷ annotations))
