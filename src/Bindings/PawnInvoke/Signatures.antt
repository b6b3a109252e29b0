-- ===== src/Bindings/PawnInvoke/Signatures.antt =====
-- The signatures that are accepted, and what is kept of them.
use playgroundjs_plugin.Common.{
  [], Bool, ℕ, List, true, ◌∷◌, not, ◌+◌, if◌then◌else◌, set, ◌&&◌, ◌||◌,
}
use playgroundjs_plugin.Bindings.PawnInvoke.{
  signature_array, signature_float, signature_float_reference, signature_int,
  signature_int_reference, signature_string, signature_string_reference, SignatureType, Parsed,
  is_reference_type,
}

-- The character of an entry.
abbrev pub letter : SignatureType → ℕ
letter signature_array = 97
letter signature_float = 102
letter signature_float_reference = 70
letter signature_int = 105
letter signature_int_reference = 73
letter signature_string = 115
letter signature_string_reference = 83

abbrev pub is_reference_entry : SignatureType → Bool
is_reference_entry entry = is_reference_type (letter entry)

-- No entry behind a reference is an argument.
abbrev pub is_proper : Bool → List SignatureType → Bool
is_proper found [] = true
is_proper found (entry ∷ entries) =
    not (found && not (is_reference_entry entry))
    && is_proper (found || is_reference_entry entry) entries

abbrev pub count_references : List SignatureType → ℕ
count_references [] = 0
count_references (entry ∷ entries) =
    if is_reference_entry entry then count_references entries + 1 else count_references entries

abbrev pub count_arguments : List SignatureType → ℕ
count_arguments [] = 0
count_arguments (entry ∷ entries) =
    if is_reference_entry entry then count_arguments entries else count_arguments entries + 1

-- The entries written over a buffer from an index on.
abbrev pub overwrite : ℕ → List SignatureType → List SignatureType → List SignatureType
overwrite index [] buffer = buffer
overwrite index (entry ∷ entries) buffer = overwrite (index + 1) entries (set buffer index entry)

-- The record that is left for entries that are read whole.
abbrev parsed_with : ℕ → List SignatureType → Parsed → Parsed
parsed_with index entries p = record {
  accepted = p.accepted;
  argument_count = p.argument_count + count_arguments entries;
  return_count = p.return_count + count_references entries;
  entries = overwrite index entries p.entries;
  written_behind = p.written_behind;
}

-- A result with these counts and entries.
abbrev result_of : Bool → List SignatureType → List (ℕ × SignatureType) → ℕ → ℕ → Parsed
result_of accepted entries written_behind argument_count return_count = record {
  accepted = accepted;
  argument_count = argument_count;
  return_count = return_count;
  entries = entries;
  written_behind = written_behind;
}
