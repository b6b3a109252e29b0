-- ===== src/Bindings/ProvidedNatives.antt =====
-- src/playground/bindings/provided_natives.cc: the natives that scripts provide to the gamemode.
pub mod Answers
pub mod Calls
use mathlib.Core.Option.{map as map_option}
use playgroundjs_plugin.Common.{
  ℕ, [], Option, List, Bytes, find_text, some, if◌then◌else◌, Bool, ◌++◌, ◌∷◌, ◌==◌, not, false,
  ltb, none, length, ◌||◌, true, ◌+◌, bytes_eq, put_text,
}
use playgroundjs_plugin.Plugin.NativeParameters.{
  NativeParameters, Written, count, get_parameter, get_string_parameter, set_parameter,
  set_string_parameter,
}
use playgroundjs_plugin.Plugin.Values.{minus_one, minus_one_float}

-- `StoredNative`, its function known by a number.
pub record StoredNative : Type 0 where
  pub name : Bytes
  pub signature : Bytes
  pub param_count : ℕ
  pub retval_count : ℕ
  pub reference : ℕ

-- `ProvidedNatives`
pub record ProvidedNatives : Type 0 where
  pub known_natives : List Bytes
  pub native_handlers : List (Bytes × StoredNative)

abbrev pub no_natives : ProvidedNatives
no_natives = record { known_natives = []; native_handlers = [] }

-- `SetNatives`
unfoldable pub set_natives : List Bytes → ProvidedNatives → ProvidedNatives
set_natives natives p = record p { known_natives = natives ++ p.known_natives }

unfoldable pub is_known : Bytes → List Bytes → Bool
is_known name [] = false
is_known name (known ∷ rest) = bytes_eq name known || is_known name rest

-- 'f', 'i', 's', and 'F', 'I', 'S'.
abbrev pub is_parameter : ℕ → Bool
is_parameter c = c == 102 || c == 105 || c == 115

abbrev pub is_reference : ℕ → Bool
is_reference c = c == 70 || c == 73 || c == 83

-- The loop of `Register` over the signature, with both counts.
unfoldable pub count_signature : Bytes → ℕ × ℕ → Option (ℕ × ℕ)
count_signature [] counts = some counts
count_signature (c ∷ signature) (params, retvals) =
    if is_parameter c
    then count_signature signature (params + 1, retvals)
    else if is_reference c
    then count_signature signature (params, retvals + 1)
    else none

-- `Register`
unfoldable pub register : Bytes → Bytes → ℕ → ProvidedNatives → Bool × ProvidedNatives
register name signature fn p =
    if not (is_known name p.known_natives)
    then (false, p)
    else elim (count_signature signature (0, 0)) [
      | none ↦ (false, p)
      | some counts ↦
          (let native : StoredNative = record {
            name = name;
            signature = signature;
            param_count = counts.0;
            retval_count = counts.1;
            reference = fn;
          } in
            (true, record p { native_handlers = put_text name native p.native_handlers }))
    ]

-- The arguments of the function: a number from the bits of a cell, or a text.
pub data NativeArgument : Type 0 where
  float_argument integer_argument : (bits : ℕ) → NativeArgument
  string_argument : (text : Bytes) → NativeArgument

-- An element of an array that the function returns: a number that is an `int32_t`, with its bits
-- and those of the `float` equal to it; another number, with the bits of the `float` nearest to it;
-- a text in UTF-8; or anything else.
pub data Element : Type 0 where
  int32_element : (bits float_bits : ℕ) → Element
  number_element : (float_bits : ℕ) → Element
  text_element : (text : Bytes) → Element
  other_element : Element

-- What the function returns; `nothing_returned` where it threw.
pub data Returned : Type 0 where
  nothing_returned : Returned
  int32_returned : (bits : ℕ) → Returned
  array_returned : (elements : List Element) → Returned
  other_returned : Returned

-- The `switch` for an argument.
unfoldable pub read_argument : NativeParameters → ℕ → ℕ → Option (List NativeArgument)
read_argument params i c =
    if c == 102
    then map_option (λ v. float_argument v ∷ []) (get_parameter params i)
    else if c == 105
    then map_option (λ v. integer_argument v ∷ []) (get_parameter params i)
    else if c == 115
    then map_option (λ t. string_argument t ∷ []) (get_string_parameter params i)
    else some []

-- The first loop of `Call`, from the position `i` of the signature on.
unfoldable pub read_arguments : NativeParameters → ℕ → Bytes → Option (List NativeArgument)
read_arguments params i [] = some []
read_arguments params i (c ∷ signature) = elim (read_argument params i c) [
  | none ↦ none
  | some first ↦ map_option (λ rest. first ++ rest) (read_arguments params (i + 1) signature)
]

-- The `switch` for a value returned.
unfoldable pub write_element :
    NativeParameters → ℕ → ℕ → Element → List (ℕ × Written) → Option (List (ℕ × Written))
write_element params i c element writes =
    if c == 70
    then elim element [
      | int32_element bits float_bits ↦ set_parameter params i float_bits writes
      | number_element float_bits ↦ set_parameter params i float_bits writes
      | _ ↦ set_parameter params i minus_one_float writes
    ]
    else if c == 73
    then elim element [
      | int32_element bits float_bits ↦ set_parameter params i bits writes
      | _ ↦ set_parameter params i minus_one writes
    ]
    else elim element [
      | text_element (c ∷ text) ↦
          set_string_parameter params i (c ∷ text) (length (c ∷ text) + 1) writes
      | _ ↦ set_string_parameter params i [] 1 writes
    ]

-- The second loop, over the signature and the elements, which are as many as the references; what
-- is behind the end of the array is undefined.
unfoldable pub write_elements :
    NativeParameters → ℕ → Bytes → List Element → List (ℕ × Written) → Option (List (ℕ × Written))
write_elements params i [] elements writes = some writes
write_elements params i (c ∷ signature) [] writes =
    if is_reference c
    then elim (write_element params i c other_element writes) [
      | none ↦ none
      | some written ↦ write_elements params (i + 1) signature [] written
    ]
    else write_elements params (i + 1) signature [] writes
write_elements params i (c ∷ signature) (element ∷ elements) writes =
    if is_reference c
    then elim (write_element params i c element writes) [
      | none ↦ none
      | some written ↦ write_elements params (i + 1) signature elements written
    ]
    else write_elements params (i + 1) signature (element ∷ elements) writes

-- What `Call` does with the value: the value for the gamemode, and what is written.
unfoldable pub use_returned :
    NativeParameters → StoredNative → Returned → Option (ℕ × List (ℕ × Written))
use_returned params native returned =
    if native.retval_count == 0
    then some (elim returned [ int32_returned bits ↦ bits | nothing_returned ↦ 0 | _ ↦ 1 ], [])
    else elim returned [
      | array_returned elements ↦
          if length elements == native.retval_count
          then map_option (λ writes. (1, writes))
              (write_elements params 0 native.signature elements [])
          else some (minus_one, [])
      | _ ↦ some (minus_one, [])
    ]

module _ (function : ℕ → List NativeArgument → Returned) where
  -- `Call` for a handler that was found.
  unfoldable pub call_native : StoredNative → NativeParameters → Option (ℕ × List (ℕ × Written))
  call_native native params =
      if ltb (count params) native.param_count
      then some (0, [])
      else elim (read_arguments params 0 native.signature) [
        | none ↦ none
        | some arguments ↦
            if length arguments == native.param_count
            then use_returned params native (function native.reference arguments)
            else none
      ]

  -- `Call`: the bits of the value returned, and what is written, in order.
  unfoldable pub call : Bytes → NativeParameters → ProvidedNatives → Option (ℕ × List (ℕ × Written))
  call name params p = elim (find_text name p.native_handlers) [
    | none ↦ some (0, [])
    | some native ↦ call_native native params
  ]
