-- ===== src/Bindings/InvokeTests.antt =====
-- Signatures of Pawn functions on concrete inputs, and the theorem at an input that meets its
-- hypothesis.
use playgroundjs_plugin.Common.{List, codes, ◌∷◌, ◌≡◌, [], false, refl}
use playgroundjs_plugin.Bindings.PawnInvoke.{
  SignatureType, signature_int, signature_float, signature_string_reference, new_signature,
  parse_signature, parse_entries, reference_entry, argument_entry, put_entry,
}

abbrev some_entries : List SignatureType
some_entries = signature_int ∷ signature_float ∷ signature_string_reference ∷ []

refused_argument : (parse_signature (codes "iIf") new_signature).accepted ≡ false
unfolding parse_signature parse_entries put_entry reference_entry argument_entry
refused_argument = refl
