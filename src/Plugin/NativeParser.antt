-- ===== src/Plugin/NativeParser.antt =====
-- src/playground/plugin/native_parser.cc and native_parser.h: the list of native functions that
-- the script provides, and the table of natives that the server registers.
pub mod Table
use playgroundjs_plugin.Plugin.Lines.{line_loop}
use playgroundjs_plugin.Common.{
  Bytes, some, none, Bool, List, Option, ℕ, true, if◌then◌else◌, replicate, suc, leb, get_elem?,
  false, ◌-◌, ◌∷◌, ◌&&◌, not, ◌+◌, ◌++◌, bytes_eq, ◌||◌, length, set, [], ◌==◌, zero, ltb,
}

-- `IsValidCharacter`
unfoldable pub is_valid_character : ℕ → Bool
is_valid_character character =
    (leb b'A' character && leb character b'Z')
    || (leb b'a' character && leb character b'z')
    || (leb b'0' character && leb character b'9')
    || character == b'_'

-- The loop of `ParseLine` over the bytes of a name.
unfoldable pub all_valid : Bytes → Bool
unfolding is_valid_character
all_valid [] = true
all_valid (c ∷ cs) = is_valid_character c && all_valid cs

-- `std::find` among the names stored so far.
unfoldable pub contains_name : Bytes → List Bytes → Bool
contains_name name [] = false
contains_name name (n ∷ rest) = bytes_eq n name || contains_name name rest

-- `ParseLine`: the names with the new one at the end, or `none` for false.
unfoldable pub parse_line : Bytes → List Bytes → Option (List Bytes)
parse_line line natives =
    if not (all_valid line)
    then none
    else if contains_name line natives
    then none
    else some (natives ++ (line ∷ []))

-- `kMaxNatives` and `kStaticNatives`
abbrev pub max_natives : ℕ
max_natives = 255

abbrev pub static_natives : ℕ
static_natives = 1

-- An entry of the table: the native's name and the index that its trampoline, `Invoke`, looks up.
-- `none` is an entry of zeros.
abbrev pub TableEntry : Type 0
TableEntry = Option (Bytes × ℕ)

-- `NativeRegistrar<N>::Register` from N = n down to 0, on the part of the table behind the static
-- natives: entry kMaxNatives - N is written where there is a native of that index.
unfoldable pub register : ℕ → List Bytes → List TableEntry → List TableEntry
register zero natives table = table
register (suc n) natives table =
    let native_index = max_natives - suc n in
    register n natives (elim (get_elem? natives native_index) [
      | none ↦ table
      | some name ↦ set table native_index (some (name, native_index))
    ])

-- `NativeRegistrar<N>::Invoke`: the native whose handler `ProvidedNatives::Call` is asked for.
unfoldable pub invoke : List Bytes → ℕ → Option Bytes
invoke natives native_index = get_elem? natives native_index

-- The names of a file and the dynamic part of the table, which has one entry of zeros more than
-- there can be natives.
pub record Loaded : Type 0 where
  pub natives : List Bytes
  pub table : List TableEntry

-- The end of `Parse`: the bound on the number of natives, then their registration.
unfoldable pub register_all : List Bytes → Option Loaded
register_all natives =
    if ltb max_natives (length natives)
    then none
    else some (record {
      natives = natives;
      table = register max_natives natives (replicate (max_natives + 1) none);
    })

-- `Parse`: `none` for false. An empty file registers nothing.
unfoldable pub parse : Bytes → Option Loaded
parse content =
    if length content == 0
    then some (record { natives = []; table = replicate (max_natives + 1) none })
    else elim (line_loop parse_line (suc (length content)) content (some 0) []) [
      | none ↦ none
      | some parsed ↦ elim parsed [ none ↦ none | some natives ↦ register_all natives ]
    ]
