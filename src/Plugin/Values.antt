-- ===== src/Plugin/Values.antt =====
-- src/playground/plugin/arguments.cc: the arguments of an intercepted callback, by name. Integers
-- and floats are the bits of a cell.
use playgroundjs_plugin.Common.{[], ℕ, Bytes, List, put_text, find_text, some}

-- What a `std::any` of the map holds.
pub data ArgumentValue : Type 0 where
  int_value float_value : (bits : ℕ) → ArgumentValue
  string_value : (text : Bytes) → ArgumentValue
  array_value : (cells : List ℕ) → ArgumentValue

abbrev pub Arguments : Type 0
Arguments = List (Bytes × ArgumentValue)

-- The bits of -1 and of -1.0f.
abbrev pub minus_one : ℕ
minus_one = 4294967295

abbrev pub minus_one_float : ℕ
minus_one_float = 3212836864

-- `AddInteger`, `AddFloat`, `AddString`, `AddArray`
unfoldable pub add_integer : Bytes → ℕ → Arguments → Arguments
add_integer name value arguments = put_text name (int_value value) arguments

unfoldable pub add_float : Bytes → ℕ → Arguments → Arguments
add_float name value arguments = put_text name (float_value value) arguments

unfoldable pub add_string : Bytes → Bytes → Arguments → Arguments
add_string name value arguments = put_text name (string_value value) arguments

unfoldable pub add_array : Bytes → List ℕ → Arguments → Arguments
add_array name value arguments = put_text name (array_value value) arguments

-- `GetInteger`, `GetFloat`, `GetString`, `GetArray`: what is not there, or of another type, reads
-- as a default.
unfoldable pub get_integer : Bytes → Arguments → ℕ
get_integer name arguments = elim (find_text name arguments) [
  | some (int_value value) ↦ value
  | _ ↦ minus_one
]

unfoldable pub get_float : Bytes → Arguments → ℕ
get_float name arguments = elim (find_text name arguments) [
  | some (float_value value) ↦ value
  | _ ↦ minus_one_float
]

unfoldable pub get_string : Bytes → Arguments → Bytes
get_string name arguments = elim (find_text name arguments) [
  | some (string_value value) ↦ value
  | _ ↦ []
]

unfoldable pub get_array : Bytes → Arguments → List ℕ
get_array name arguments = elim (find_text name arguments) [
  | some (array_value value) ↦ value
  | _ ↦ []
]
