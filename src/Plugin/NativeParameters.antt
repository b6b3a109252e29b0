-- ===== src/Plugin/NativeParameters.antt =====
-- src/playground/plugin/native_parameters.cc: the parameters with which the gamemode calls a native
-- of the plugin. `none` where a `CHECK` fails, which ends the process.
use playgroundjs_plugin.Common.{
  ℕ, ◌/◌, Option, Bytes, List, if◌then◌else◌, ◌+◌, ltb, none, some, ◌++◌, ◌∷◌, [],
}
use playgroundjs_plugin.Plugin.Amx.{Amx, read_string_from_amx}

-- `params`, the cells that the AMX gives, the first of which is their size in bytes.
pub record NativeParameters : Type 0 where
  pub amx : Amx
  pub params : ℕ → ℕ

-- What is written to an address of the AMX: a cell, or a text with the limit on its length.
pub data Written : Type 0 where
  cell_written : (value : ℕ) → Written
  text_written : (value : Bytes) (length : ℕ) → Written

-- `count`
unfoldable pub count : NativeParameters → ℕ
count p = p.params 0 / 4

-- `CHECK(index < count())`, and what comes behind it.
unfoldable pub checked {ℓ} : {A : Type ℓ} → NativeParameters → ℕ → A → Option A
checked p index a = if ltb index (count p) then some a else none

-- `GetInteger` and `GetFloat`: the bits of the same cell.
unfoldable pub get_parameter : NativeParameters → ℕ → Option ℕ
get_parameter p index = checked p index (p.params (index + 1))

-- `GetString`
unfoldable pub get_string_parameter : NativeParameters → ℕ → Option Bytes
get_string_parameter p index = checked p index (read_string_from_amx p.amx (p.params (index + 1)))

-- Behind the `CHECK` of the three setters: nothing is written where there is no address.
unfoldable pub write_at : NativeParameters → ℕ → Written → List (ℕ × Written) → List (ℕ × Written)
write_at p index value writes = elim (p.amx.get_addr (p.params (index + 1))) [
  | none ↦ writes
  | some address ↦ writes ++ ((address, value) ∷ [])
]

-- `SetInteger` and `SetFloat`
unfoldable pub set_parameter :
    NativeParameters → ℕ → ℕ → List (ℕ × Written) → Option (List (ℕ × Written))
set_parameter p index value writes = checked p index (write_at p index (cell_written value) writes)

-- `SetString`
unfoldable pub set_string_parameter :
    NativeParameters → ℕ → Bytes → ℕ → List (ℕ × Written) → Option (List (ℕ × Written))
set_string_parameter p index value length writes =
    checked p index (write_at p index (text_written value length) writes)
