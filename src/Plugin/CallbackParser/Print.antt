-- ===== src/Plugin/CallbackParser/Print.antt =====
-- The syntax of one line of the file of callbacks, as the comments of
-- src/playground/plugin/callback_parser.h describe it: annotations in brackets, then a Pawn
-- declaration. What is written here is what the parser is proved to read.
use playgroundjs_plugin.Plugin.Callback.{CallbackArgumentType, type_int, type_float, type_string}
use playgroundjs_plugin.Plugin.NativeParser.{is_valid_character}
use playgroundjs_plugin.Common.{Bytes, List, ℕ, ◌≡◌, codes, ◌++◌, ◌∷◌, [], true, All}

-- A `\w+`.
pub record IsName (name : Bytes) : Type 0 where
  pub first : ℕ
  pub others : Bytes
  pub from_first : name ≡ first ∷ others
  pub first_valid : is_valid_character first ≡ true
  pub others_valid : All (λ c. is_valid_character c ≡ true) others

unfoldable pub print_argument : Bytes × CallbackArgumentType → Bytes
print_argument (name, type_int) = name
print_argument (name, type_float) = codes "Float" ++ (b':' ∷ name)
print_argument (name, type_string) = name ++ (b'[' ∷ codes "]")

unfoldable pub print_arguments : List (Bytes × CallbackArgumentType) → Bytes
print_arguments [] = []
print_arguments (a ∷ []) = print_argument a
print_arguments (a ∷ b ∷ rest) = print_argument a ++ (b',' ∷ b' ' ∷ print_arguments (b ∷ rest))

unfoldable pub print_declaration : Bytes → List (Bytes × CallbackArgumentType) → Bytes
print_declaration name arguments =
    codes "forward "
    ++ (name ++ (b'(' ∷ ((print_arguments arguments ++ (b')' ∷ [])) ++ (b';' ∷ []))))

unfoldable pub print_annotations : Bytes → List Bytes → Bytes
print_annotations a [] = a ++ codes "]"
print_annotations a (b ∷ rest) = a ++ (b',' ∷ b' ' ∷ print_annotations b rest)

-- A line with at least one annotation.
unfoldable pub print_annotated : Bytes → List Bytes → Bytes → Bytes
print_annotated a annotations declaration =
    codes "[" ++ (print_annotations a annotations ++ (b' ' ∷ declaration))
