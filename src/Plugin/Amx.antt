-- ===== src/Plugin/Amx.antt =====
-- src/playground/plugin/pawn_helpers.cc: reading from the stack and the memory of an AMX. The AMX
-- and its functions are those of the server: what they answer is a record here.
use playgroundjs_plugin.Common.{
  [], ℕ, Bytes, Option, List, if◌then◌else◌, suc, take, ◌∷◌, ◌++◌, ◌==◌, replicate, ◌+◌, ◌-◌, zero,
  length, none, some,
}

-- An AMX at the time of a call: which one it is, its stack from `stk` on, and the answers of
-- `amx_GetAddr`, `amx_StrLen`, `amx_GetString` (at an address, for a size), `amx_NumPublics` and
-- `amx_GetPublic`, `none` for an error.
pub record Amx : Type 0 where
  pub identity : ℕ
  pub paramcount : ℕ
  pub stack : ℕ → ℕ
  pub memory : ℕ → ℕ
  pub get_addr : ℕ → Option ℕ
  pub str_len : ℕ → Option ℕ
  pub get_amx_string : ℕ → ℕ → Option Bytes
  pub num_publics : Option ℕ
  pub get_public : ℕ → Option Bytes

-- `ReadIntFromStack` and `ReadFloatFromStack`, which read the same cell.
unfoldable pub read_from_stack : Amx → ℕ → ℕ
read_from_stack amx index = amx.stack index

-- The loop of `ReadArrayFromAmx`.
unfoldable pub copy_cells : Amx → ℕ → ℕ → List ℕ
copy_cells amx address zero = []
copy_cells amx address (suc left) = amx.memory address ∷ copy_cells amx (address + 1) left

-- `ReadArrayFromAmx` into a buffer that is resized before anything can fail: cells that were in the
-- buffer stay, new ones are zero.
abbrev resize : ℕ → List ℕ → List ℕ
resize size buffer = take size buffer ++ replicate (size - length buffer) 0

unfoldable pub read_array_from_amx : Amx → ℕ → ℕ → List ℕ → List ℕ
read_array_from_amx amx array_index array_size buffer =
    if array_size == 0 then [] else elim (amx.get_addr array_index) [
      | none ↦ resize array_size buffer
      | some address ↦ copy_cells amx address array_size
    ]

-- `ReadStringFromAmx`. A copy that fails leaves the buffer at its size with the terminating byte,
-- filled with NUL.
unfoldable pub read_string_from_amx : Amx → ℕ → Bytes
read_string_from_amx amx string_index = elim (amx.get_addr string_index) [
  | none ↦ []
  | some address ↦ elim (amx.str_len address) [
    | none ↦ []
    | some string_length ↦
        if string_length == 0 then [] else elim (amx.get_amx_string address (string_length + 1)) [
          | none ↦ replicate (string_length + 1) 0
          | some text ↦ take string_length text
        ]
  ]
]
