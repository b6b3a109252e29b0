-- ===== src/Plugin/NativeFunctions.antt =====
-- src/playground/plugin/native_function_manager.cc: the table of the server's native functions, as
-- the intercepted `amx_Register` fills it. A function is known by a number. `number` is the count
-- passed to `amx_Register`, 0 where that is not positive; an array that ends without a null entry
-- is not read past its end.
pub mod First
use playgroundjs_plugin.Common.{
  [], Bytes, ℕ, codes, if◌then◌else◌, Option, List, ◌∷◌, some, not, none, Bool, ltb, get_elem?,
  length, bytes_eq, false, ◌&&◌, true, leb, ◌==◌, ◌+◌,
}

-- `AMX_NATIVE_INFO`, with `none` for a null pointer.
pub record NativeInfo : Type 0 where
  pub native_name : Option Bytes
  pub native_func : Option ℕ

-- `kNativeName`
abbrev pub native_name_constant : Bytes
native_name_constant = codes "CAC_ReadMemoryChecksum"

abbrev byte_is : Bytes → ℕ → ℕ → Bool
byte_is name i c = elim (get_elem? name i) [ none ↦ false | some b ↦ b == c ]

-- `GetNativeName`
unfoldable pub get_native_name : Bytes → Bytes
get_native_name name =
    if ltb 11 (length name) && byte_is name 1 101 && byte_is name 4 67 && byte_is name 11 104
    then native_name_constant
    else name

-- `native_functions_.find`
unfoldable pub find_function : Bytes → List (Bytes × ℕ) → Option ℕ
find_function name [] = none
find_function name (f ∷ functions) =
    let rest = find_function name functions in if bytes_eq name f.0 then some f.1 else rest

-- `FunctionExists`
unfoldable pub function_exists : Bytes → List (Bytes × ℕ) → Bool
function_exists name functions = elim (find_function name functions) [
  | none ↦ false
  | some f ↦ true
]

-- The store of one entry, unless its name is taken.
unfoldable pub store_function : Bytes → ℕ → List (Bytes × ℕ) → List (Bytes × ℕ)
store_function name func functions =
    if not (function_exists name functions) then (name, func) ∷ functions else functions

-- The loop of `OnRegister` from `index` on, over the entries from there.
unfoldable pub register_loop : ℕ → ℕ → List NativeInfo → List (Bytes × ℕ) → List (Bytes × ℕ)
register_loop number index [] functions = functions
register_loop number index (info ∷ infos) functions =
    if ltb 0 number && leb number index then functions else elim info.native_func [
      | none ↦ functions
      | some func ↦ elim info.native_name [
        | none ↦ functions
        | some name ↦
            register_loop number (index + 1) infos
              (store_function (get_native_name name) func functions)
      ]
    ]

-- `OnRegister`, before it calls the function that it intercepted. The list may be null.
unfoldable pub on_register : ℕ → Option (List NativeInfo) → List (Bytes × ℕ) → List (Bytes × ℕ)
on_register number none functions = functions
on_register number (some infos) functions = register_loop number 0 infos functions

-- One call after another.
unfoldable pub on_register_all :
    List (ℕ × Option (List NativeInfo)) → List (Bytes × ℕ) → List (Bytes × ℕ)
on_register_all [] functions = functions
on_register_all (call ∷ calls) functions =
    on_register_all calls (on_register call.0 call.1 functions)
