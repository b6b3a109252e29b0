-- ===== src/Plugin/CallbackParser/Fuel.antt =====
-- The loop over the arguments of src/playground/plugin/callback_parser.cc ends on every text.
use playgroundjs_plugin.Base.StringPiece.{substr_rest}
use playgroundjs_plugin.Plugin.Trim.{trim-Trims}
use playgroundjs_plugin.Plugin.CallbackParser.{
  argument_loop, Callback, trim, parse_argument, substr, find_char,
}
use playgroundjs_plugin.Common.{
  Bytes, ℕ, length, ◌<◌, ◌≤◌, ◌≢◌, arith, none, suc, ap, length-append, Option-cases, ◌++◌, inl,
  inr, ◌+◌, length-drop, zero,
}

trim_shorter : (s : Bytes) → length (trim s) ≤ length s
trim_shorter s =
    let t = trim-Trims s in
    omega (
      arith,
      ap length t.parts,
      length-append t.pre (trim s ++ t.post),
      length-append (trim s) t.post,
    )

-- A fuel that is larger than the text is enough: the loop accepts the text or refuses it.
pub argument_loop-total :
    (fuel : ℕ) (line : Bytes) (callback : Callback)
    → length line < fuel
    → argument_loop fuel line callback ≢ none
unfolding argument_loop
argument_loop-total zero line callback h = elim h [ ]
argument_loop-total (suc fuel) line callback h =
    elim (Option-cases (parse_argument (substr line 0 (find_char line b',' 0)) callback)) [
      | inl n ↦ ground arith
      | inr (c, f) ↦ elim (Option-cases (find_char line b',' 0)) [
        | inl n ↦ ground arith
        | inr (o, g) ↦ ground (
          arith,
          argument_loop-total fuel (trim (substr line (o + 1) none)) c,
          trim_shorter (substr line (o + 1) none),
          ap length (substr_rest line (o + 1)),
          length-drop (o + 1) line,
        )
      ]
    ]
