-- ===== src/Plugin/CallbackParser/Arguments.antt =====
-- `ParseArgument` and the loop over the arguments of src/playground/plugin/callback_parser.cc read
-- back what the syntax prints.
use playgroundjs_plugin.Plugin.Lines.{drop_hit}
use playgroundjs_plugin.Base.StringPiece.{
  find_char-none, find_char, find_char-hit, find_char_from, index_from-hit, substr_front,
  substr_rest,
}
use playgroundjs_plugin.Plugin.NativeParser.{is_valid_character}
use playgroundjs_plugin.Plugin.Callback.{
  CallbackArgumentType, Callback, type_int, type_float, type_string,
}
use playgroundjs_plugin.Plugin.CallbackParser.{
  parse_argument, argument_type, is_int, store_argument, trim, argument_loop,
}
use playgroundjs_plugin.Plugin.CallbackParser.Print.{IsName, print_argument, print_arguments}
use playgroundjs_plugin.Plugin.Trim.{is_blank, IsSolid, trim_id, AreBlank, trim_solid}
use playgroundjs_plugin.Plugin.Solid.{IsSolid-All, IsSolid-one, IsSolid-join, IsSolid-length}
use playgroundjs_plugin.Common.{
  Bytes, ℕ, codes, subst, sym, ◌≡◌, refl, true, All-imp, false, ◌++◌, All, arith, ◌==◌, ◌∷◌,
  Bool-cases, [], inl, false≢true, some, ◌∙◌, ap, ==_iff, inr, none, length, drop-length-append,
  bytes_eq_refl, if◌then◌else◌, All-append, bytes_eq, ◌+◌, List, append-nil, ◌<◌, suc, append_assoc,
  length-append, zero,
}

valid_not_blank : (c : ℕ) → is_valid_character c ≡ true → is_blank c ≡ false
unfolding is_valid_character is_blank
valid_not_blank c h = ground arith

-- A name holds no byte that is not a word's.
module _ (k : ℕ) (special : is_valid_character k ≡ false) where
  valid_ne : (c : ℕ) → is_valid_character c ≡ true → (c == k) ≡ false
  valid_ne c h = elim (Bool-cases (c == k)) [
    | inl e ↦ absurd (false≢true (sym special ∙ ap is_valid_character (sym ((==_iff c k).0 e)) ∙ h))
    | inr e ↦ e
  ]

  pub name_ne : {name : Bytes} → IsName name → All (λ c. (c == k) ≡ false) name
  name_ne n =
      subst (All (λ c. (c == k) ≡ false)) (sym n.from_first)
        (valid_ne n.first n.first_valid, All-imp valid_ne n.others n.others_valid)

pub IsName-IsSolid : {name : Bytes} → IsName name → IsSolid name
IsName-IsSolid n = subst IsSolid (sym n.from_first) (
    IsSolid-All n.first n.others (valid_not_blank n.first n.first_valid)
      (All-imp valid_not_blank n.others n.others_valid))

special_comma : is_valid_character b',' ≡ false
unfolding is_valid_character
special_comma = refl

special_colon : is_valid_character b':' ≡ false
unfolding is_valid_character
special_colon = refl

special_open : is_valid_character b'[' ≡ false
unfolding is_valid_character
special_open = refl

pub special_paren : is_valid_character b'(' ≡ false
unfolding is_valid_character
special_paren = refl

blank_close : IsSolid (codes "]")
unfolding is_blank
blank_close = IsSolid-one b']' refl

float-IsSolid : IsSolid (codes "Float")
unfolding is_blank
float-IsSolid = IsSolid-All b'F' (codes "loat") refl (refl, (refl, (refl, (refl, tt))))

print_argument-IsSolid :
    (name : Bytes) (type : CallbackArgumentType)
    → IsName name
    → IsSolid (print_argument (name, type))
unfolding print_argument
print_argument-IsSolid name type_int n = IsName-IsSolid n
print_argument-IsSolid name type_float n = IsSolid-join (b':' ∷ []) float-IsSolid (IsName-IsSolid n)
print_argument-IsSolid name type_string n = IsSolid-join (b'[' ∷ []) (IsName-IsSolid n) blank_close

abbrev with_argument : Bytes → CallbackArgumentType → Callback → Callback
with_argument name type callback = record callback {
  arguments = callback.arguments ++ ((name, type) ∷ []);
}

argument_type-plain : (a : Bytes) → find_char a b':' 0 ≡ none → argument_type a ≡ (type_int, a)
unfolding argument_type
argument_type-plain a e = ground arith

argument_type-named :
    (type rest : Bytes)
    → All (λ c. (c == b':') ≡ false) type
    → argument_type (type ++ (b':' ∷ rest))
      ≡ (if bytes_eq type (codes "Float") then type_float else type_int, trim rest)
unfolding argument_type
argument_type-named type rest h = rw (
  find_char-hit type b':' rest h,
  argument_type,
  substr_front type (b':' ∷ rest),
  substr_rest (type ++ (b':' ∷ rest)) (length type + 1),
  drop_hit type b':' rest,
)

store_argument-plain :
    (type : CallbackArgumentType) (a : Bytes) (callback : Callback)
    → find_char a b'[' 0 ≡ none
    → store_argument type a callback ≡ some (with_argument a type callback)
unfolding store_argument
store_argument-plain type a callback e = ground arith

store_argument-array :
    (a : Bytes) (callback : Callback)
    → All (λ c. (c == b'[') ≡ false) a
    → store_argument type_int (a ++ (b'[' ∷ codes "]")) callback
      ≡ some (with_argument (trim a) type_string callback)
unfolding store_argument is_int
store_argument-array a callback h = rw (
  find_char-hit a b'[' (codes "]") h,
  store_argument,
  find_char_from (a ++ (b'[' ∷ codes "]")) b']' (length a),
  drop-length-append a (b'[' ∷ codes "]"),
  index_from-hit (λ x. x == b']') (length a) b']' (b'[' ∷ []) [] (refl, tt) refl,
  substr_front a (b'[' ∷ codes "]"),
)

parse_argument-eq :
    (input text a : Bytes) (type : CallbackArgumentType) (callback : Callback)
    → trim input ≡ text
    → argument_type text ≡ (type, a)
    → parse_argument input callback ≡ store_argument type a callback
unfolding parse_argument
parse_argument-eq input text a type callback e f =
    ap (λ u. store_argument (argument_type u).0 (argument_type u).1 callback) e
    ∙ ap (λ (p : CallbackArgumentType × Bytes). store_argument p.0 p.1 callback) f

-- `ParseArgument` adds the argument that is printed.
parse_argument-print :
    (name : Bytes) (type : CallbackArgumentType) (callback : Callback)
    → IsName name
    → parse_argument (print_argument (name, type)) callback
      ≡ some (with_argument name type callback)
unfolding print_argument
parse_argument-print name type_int callback n =
    parse_argument-eq name name name type_int callback (trim_id name (IsName-IsSolid n))
      (argument_type-plain name (find_char-none name b':' (name_ne b':' special_colon n)))
    ∙ store_argument-plain type_int name callback
        (find_char-none name b'[' (name_ne b'[' special_open n))
parse_argument-print name type_float callback n =
    parse_argument-eq (print_argument (name, type_float)) (print_argument (name, type_float)) name
      type_float callback (trim_id _ (print_argument-IsSolid name type_float n))
      (argument_type-named (codes "Float") name (refl, (refl, (refl, (refl, (refl, tt)))))
        ∙ rw (bytes_eq_refl (codes "Float"), trim_id name (IsName-IsSolid n)))
    ∙ store_argument-plain type_float name callback
        (find_char-none name b'[' (name_ne b'[' special_open n))
parse_argument-print name type_string callback n =
    parse_argument-eq (print_argument (name, type_string)) (print_argument (name, type_string))
      (print_argument (name, type_string)) type_int callback
      (trim_id _ (print_argument-IsSolid name type_string n))
      (argument_type-plain _ (find_char-none _ b':' (colonless n)))
    ∙ store_argument-array name callback (name_ne b'[' special_open n)
    ∙ ap (λ u. some (with_argument u type_string callback)) (trim_id name (IsName-IsSolid n))
  where
    colonless : IsName name → All (λ c. (c == b':') ≡ false) (name ++ (b'[' ∷ codes "]"))
    colonless m =
        All-append (λ c. (c == b':') ≡ false) name (b'[' ∷ codes "]") (name_ne b':' special_colon m)
          (refl, (refl, tt))

abbrev pub IsNamed : Bytes × CallbackArgumentType → Type 0
IsNamed a = IsName a.0

argument_loop-last :
    (fuel : ℕ) (line : Bytes) (callback parsed : Callback)
    → 0 < length line
    → find_char line b',' 0 ≡ none
    → parse_argument line callback ≡ some parsed
    → argument_loop (suc fuel) line callback ≡ some (some parsed)
unfolding argument_loop
argument_loop-last fuel line callback parsed h e f =
    rw (e, argument_loop, substr_rest line 0, f) (ground arith)

argument_loop-next :
    (fuel : ℕ) (first rest tail : Bytes) (callback parsed : Callback)
    → All (λ c. (c == b',') ≡ false) first
    → parse_argument first callback ≡ some parsed
    → trim rest ≡ tail
    → argument_loop (suc fuel) (first ++ (b',' ∷ rest)) callback ≡ argument_loop fuel tail parsed
unfolding argument_loop
argument_loop-next fuel first rest tail callback parsed h e f =
    rw
      (
        find_char-hit first b',' rest h,
        argument_loop,
        substr_front first (b',' ∷ rest),
        e,
        find_char-hit first b',' rest h,
        substr_rest (first ++ (b',' ∷ rest)) (length first + 1),
        drop_hit first b',' rest,
        f,
      )
      (ground (arith, length-append first (b',' ∷ rest)))

comma_free :
    (a : Bytes × CallbackArgumentType)
    → IsNamed a
    → All (λ c. (c == b',') ≡ false) (print_argument a)
unfolding print_argument
comma_free (name, type_int) n = name_ne b',' special_comma n
comma_free (name, type_float) n =
    (refl, (refl, (refl, (refl, (refl, (refl, name_ne b',' special_comma n))))))
comma_free (name, type_string) n =
    All-append (λ c. (c == b',') ≡ false) name (b'[' ∷ codes "]") (name_ne b',' special_comma n)
      (refl, (refl, tt))

pub print_arguments-IsSolid :
    (a : Bytes × CallbackArgumentType) (rest : List (Bytes × CallbackArgumentType))
    → All IsNamed (a ∷ rest)
    → IsSolid (print_arguments (a ∷ rest))
unfolding print_arguments
print_arguments-IsSolid (name, type) [] h = print_argument-IsSolid name type h.0
print_arguments-IsSolid (name, type) (b ∷ rest) h =
    IsSolid-join (b',' ∷ b' ' ∷ []) (print_argument-IsSolid name type h.0)
      (print_arguments-IsSolid b rest h.1)

space_blank : AreBlank (b' ' ∷ [])
unfolding is_blank
space_blank = (refl, tt)

-- One space in front is cut off.
pub trim_space : (t : Bytes) → IsSolid t → trim (b' ' ∷ t) ≡ t
trim_space t s =
    ap (λ u. trim (b' ' ∷ u)) (sym (append-nil t)) ∙ trim_solid (b' ' ∷ []) t [] space_blank s tt

abbrev with_arguments : List (Bytes × CallbackArgumentType) → Callback → Callback
with_arguments arguments callback = record callback { arguments = callback.arguments ++ arguments }

-- The loop over the arguments adds those that are printed, in order.
pub argument_loop-print :
    (fuel : ℕ) (arguments : List (Bytes × CallbackArgumentType)) (callback : Callback)
    → All IsNamed arguments
    → length (print_arguments arguments) < fuel
    → argument_loop fuel (print_arguments arguments) callback
      ≡ some (some (with_arguments arguments callback))
unfolding print_arguments
argument_loop-print zero arguments callback h lt = elim lt [ ]
argument_loop-print (suc fuel) [] callback h lt = (unfold argument_loop in rw append-nil)
argument_loop-print (suc fuel) ((name, type) ∷ []) callback h lt =
    argument_loop-last fuel (print_argument (name, type)) callback
      (with_argument name type callback) (IsSolid-length (print_argument-IsSolid name type h.0))
      (find_char-none _ b',' (comma_free (name, type) h.0))
      (parse_argument-print name type callback h.0)
argument_loop-print (suc fuel) ((name, type) ∷ b ∷ rest) callback h lt =
    argument_loop-next fuel (print_argument (name, type)) (b' ' ∷ print_arguments (b ∷ rest))
      (print_arguments (b ∷ rest)) callback (with_argument name type callback)
      (comma_free (name, type) h.0) (parse_argument-print name type callback h.0)
      (trim_space _ (print_arguments-IsSolid b rest h.1))
    ∙ argument_loop-print fuel (b ∷ rest) (with_argument name type callback) h.1 (
        omega (
          arith,
          length-append (print_argument (name, type)) (b',' ∷ b' ' ∷ print_arguments (b ∷ rest)),
        ))
    ∙ ap (λ u. some (some (record callback { arguments = u })))
        (append_assoc callback.arguments ((name, type) ∷ []) (b ∷ rest))
