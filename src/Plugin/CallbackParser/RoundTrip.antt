-- ===== src/Plugin/CallbackParser/RoundTrip.antt =====
-- `ParseLine` of src/playground/plugin/callback_parser.cc reads back what the syntax prints.
use playgroundjs_plugin.Plugin.Lines.{drop_hit}
use playgroundjs_plugin.Base.StringPiece.{
  starts_with-append, ends_with-append, substr_rest, substr_but_last, remove_prefix, find_char-hit,
  starts_with, substr_front,
}
use playgroundjs_plugin.Plugin.Solid.{IsSolid-one, IsSolid-All, IsSolid-join, IsSolid-append}
use playgroundjs_plugin.Plugin.CallbackParser.{
  parse_declaration, argument_text, CallbackArgumentType, parse_arguments, Callback, parse_line,
  blank_callback, parse_annotations,
}
use playgroundjs_plugin.Plugin.Trim.{is_blank, IsSolid, trim, trim_blank, trim_id}
use playgroundjs_plugin.Plugin.CallbackParser.Print.{IsName, print_declaration, print_arguments}
use playgroundjs_plugin.Plugin.CallbackParser.Arguments.{
  IsNamed, print_arguments-IsSolid, IsName-IsSolid, name_ne, special_paren, argument_loop-print,
}
use playgroundjs_plugin.Common.{
  Bytes, ◌≡◌, List, codes, [], inl, ◌++◌, ◌∷◌, All, some, ◌⊎◌, subst, ap, sym, ◌∙◌, inr, refl,
  bytes_eq, suc, length, arith,
}

close-IsSolid : IsSolid (b')' ∷ [])
unfolding is_blank
close-IsSolid = IsSolid-one b')' refl

semicolon-IsSolid : IsSolid (b';' ∷ [])
unfolding is_blank
semicolon-IsSolid = IsSolid-one b';' refl

forward-IsSolid : IsSolid (codes "forward")
unfolding is_blank
forward-IsSolid =
    IsSolid-All b'f' (codes "orward") refl (refl, (refl, (refl, (refl, (refl, (refl, tt))))))

-- A text that is empty or solid stays so under `Trim`.
abbrev IsTrimmed : Bytes → Type 0
IsTrimmed t = (t ≡ []) ⊎ IsSolid t

trim-IsTrimmed : (t : Bytes) → IsTrimmed t → trim t ≡ t
trim-IsTrimmed t (inl e) = ap trim e ∙ trim_blank [] tt ∙ sym e
trim-IsTrimmed t (inr s) = trim_id t s

IsTrimmed-close : (t : Bytes) → IsTrimmed t → IsSolid (t ++ (b')' ∷ []))
IsTrimmed-close t (inl e) = subst (λ u. IsSolid (u ++ (b')' ∷ []))) (sym e) close-IsSolid
IsTrimmed-close t (inr s) = IsSolid-append s close-IsSolid

-- The text between the parentheses is found.
argument_text-print :
    (t : Bytes) → IsTrimmed t → argument_text ((t ++ (b')' ∷ [])) ++ (b';' ∷ [])) ≡ some t
unfolding argument_text
argument_text-print t h = rw (
  ends_with-append (t ++ (b')' ∷ [])) (b';' ∷ []),
  argument_text,
  substr_but_last (t ++ (b')' ∷ [])) b';',
  trim_id (t ++ (b')' ∷ [])) (IsTrimmed-close t h),
  ends_with-append t (b')' ∷ []),
  substr_but_last t b')',
  trim-IsTrimmed t h,
)

print_arguments-IsTrimmed :
    (arguments : List (Bytes × CallbackArgumentType))
    → All IsNamed arguments
    → IsTrimmed (print_arguments arguments)
unfolding print_arguments
print_arguments-IsTrimmed [] h = inl refl
print_arguments-IsTrimmed (a ∷ rest) h = inr (print_arguments-IsSolid a rest h)

abbrev body : Bytes → List (Bytes × CallbackArgumentType) → Bytes
body name arguments = name ++ (b'(' ∷ ((print_arguments arguments ++ (b')' ∷ [])) ++ (b';' ∷ [])))

body-IsSolid :
    (name : Bytes) (arguments : List (Bytes × CallbackArgumentType))
    → IsName name
    → IsSolid (body name arguments)
body-IsSolid name arguments n = subst IsSolid (ap (◌++◌ name) refl) (
    IsSolid-join (b'(' ∷ (print_arguments arguments ++ (b')' ∷ []))) (IsName-IsSolid n)
      semicolon-IsSolid)

-- The callback that a declaration makes of its candidate.
abbrev pub declared : Bytes → List (Bytes × CallbackArgumentType) → Callback → Callback
declared name arguments candidate = record candidate {
  name = name;
  arguments = candidate.arguments ++ arguments;
}

parse_arguments-print :
    (arguments : List (Bytes × CallbackArgumentType)) (named : Callback)
    → All IsNamed arguments
    → parse_arguments (print_arguments arguments) named
      ≡ some (record named { arguments = named.arguments ++ arguments })
unfolding parse_arguments
parse_arguments-print arguments named h = rw (
  argument_loop-print (suc (length (print_arguments arguments))) arguments named h (omega arith),
  parse_arguments,
)

pub parse_declaration-print :
    (name : Bytes) (arguments : List (Bytes × CallbackArgumentType)) (candidate : Callback)
    → IsName name
    → All IsNamed arguments
    → parse_declaration (print_declaration name arguments) candidate
      ≡ some (declared name arguments candidate)
unfolding parse_declaration print_declaration remove_prefix
parse_declaration-print name arguments candidate n h =
    rw
      (
        starts_with-append (codes "forward ") (body name arguments),
        parse_declaration,
        substr_rest (codes "forward " ++ body name arguments) 8,
        trim_id (body name arguments) (body-IsSolid name arguments n),
        find_char-hit name b'(' inside (name_ne b'(' special_paren n),
        substr_rest (codes "forward " ++ body name arguments) 8,
        trim_id (body name arguments) (body-IsSolid name arguments n),
        drop_hit name b'(' inside,
        argument_text-print (print_arguments arguments) (print_arguments-IsTrimmed arguments h),
        substr_rest (codes "forward " ++ body name arguments) 8,
        trim_id (body name arguments) (body-IsSolid name arguments n),
        substr_front name (b'(' ∷ inside),
        trim_id name (IsName-IsSolid n),
      )
      (parse_arguments-print arguments (record candidate { name = name }) h)
  where
    inside : Bytes
    inside = (print_arguments arguments ++ (b')' ∷ [])) ++ (b';' ∷ [])

pub print_declaration-IsSolid :
    (name : Bytes) (arguments : List (Bytes × CallbackArgumentType))
    → IsName name
    → IsSolid (print_declaration name arguments)
unfolding print_declaration
print_declaration-IsSolid name arguments n =
    IsSolid-join (b' ' ∷ []) forward-IsSolid (body-IsSolid name arguments n)

-- A declaration with no annotations in front is read back: the name and the arguments with their
-- types, in order, and the default flags.
pub parse_line-print :
    (name : Bytes) (arguments : List (Bytes × CallbackArgumentType))
    → IsName name
    → All IsNamed arguments
    → parse_line (print_declaration name arguments) ≡ some (declared name arguments blank_callback)
unfolding parse_line
parse_line-print name arguments n h =
    rw
      (
        trim_id (print_declaration name arguments) (print_declaration-IsSolid name arguments n),
        parse_line,
        unannotated,
      )
      (parse_declaration-print name arguments blank_callback n h)
  where
    unannotated :
        parse_annotations (print_declaration name arguments) blank_callback
        ≡ some (print_declaration name arguments, blank_callback)
    unannotated = unfold parse_annotations print_declaration starts_with bytes_eq in ground arith
