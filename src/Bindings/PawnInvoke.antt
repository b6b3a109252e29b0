-- ===== src/Bindings/PawnInvoke.antt =====
-- src/playground/bindings/pawn_invoke.cc: the signatures with which scripts call Pawn functions.
pub mod Signatures
use playgroundjs_plugin.Common.{
  [], ℕ, Bytes, List, Bool, Option, replicate, ◌==◌, false, ◌∷◌, ◌||◌, if◌then◌else◌, true, some,
  ◌&&◌, not, none, ◌+◌, set, ltb, length, ◌++◌,
}

-- `SignatureType`
pub data SignatureType : Type 0 where
  signature_array signature_float signature_float_reference signature_int signature_int_reference
        signature_string signature_string_reference :
      SignatureType

-- `kMaxArgumentCount`
abbrev pub max_argument_count : ℕ
max_argument_count = 24

-- `static_buffer_->signature`, whose entries `calloc` makes zero, which is the type of an array.
abbrev pub new_signature : List SignatureType
new_signature = replicate max_argument_count signature_array

-- What `ParseSignature` answers, with both counts, and the buffer. It does not compare the index
-- with the size of the buffer: `written_behind` holds what it writes behind the end, where other
-- data of the process is.
pub record Parsed : Type 0 where
  pub accepted : Bool
  pub argument_count : ℕ
  pub return_count : ℕ
  pub entries : List SignatureType
  pub written_behind : List (ℕ × SignatureType)

-- 'F', 'I', 'S'
abbrev pub is_reference_type : ℕ → Bool
is_reference_type type = type == 70 || type == 73 || type == 83

-- The `switch` over the type of an argument, and of a reference.
unfoldable pub argument_entry : ℕ → Option SignatureType
argument_entry type =
    if type == 97
    then some signature_array
    else if type == 102
    then some signature_float
    else if type == 105
    then some signature_int
    else if type == 115
    then some signature_string
    else none

unfoldable pub reference_entry : ℕ → Option SignatureType
reference_entry type =
    if type == 70
    then some signature_float_reference
    else if type == 73
    then some signature_int_reference
    else if type == 83
    then some signature_string_reference
    else none

-- `static_buffer_->signature[index] = entry`
unfoldable pub put_entry : ℕ → SignatureType → Parsed → Parsed
put_entry index entry p =
    if ltb index (length p.entries)
    then record p { entries = set p.entries index entry }
    else record p { written_behind = p.written_behind ++ ((index, entry) ∷ []) }

-- The loop of `ParseSignature` from `index` on.
unfoldable pub parse_entries : Bytes → ℕ → Bool → Parsed → Parsed
parse_entries [] index found_reference p = p
parse_entries (type ∷ signature) index found_reference p =
    if found_reference && not (is_reference_type type)
    then record p { accepted = false }
    else elim (reference_entry type) [
      | some entry ↦
          parse_entries signature (index + 1) true
            (record (put_entry index entry p) { return_count = p.return_count + 1 })
      | none ↦ elim (argument_entry type) [
        | some entry ↦
            parse_entries signature (index + 1) found_reference
              (record (put_entry index entry p) { argument_count = p.argument_count + 1 })
        | none ↦ record p { accepted = false }
      ]
    ]

-- `ParseSignature`, with what the buffer holds from before.
unfoldable pub parse_signature : Bytes → List SignatureType → Parsed
parse_signature signature entries = parse_entries signature 0 false (record {
  accepted = true;
  argument_count = 0;
  return_count = 0;
  entries = entries;
  written_behind = [];
})
