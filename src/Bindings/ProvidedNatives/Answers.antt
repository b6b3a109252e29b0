-- ===== src/Bindings/ProvidedNatives/Answers.antt =====
-- What a call of a native that scripts provide gives, described without its checks.
use playgroundjs_plugin.Plugin.Values.{minus_one, minus_one_float}
use playgroundjs_plugin.Plugin.Amx.{read_string_from_amx}
use playgroundjs_plugin.Common.{
  [], ℕ, Bytes, ◌≡◌, ◌<◌, ◌∷◌, some, List, ◌+◌, lt→ltb, length, if◌then◌else◌, ◌≤◌, refl,
  length-append, arith, true, ◌++◌, ◌==◌, ◌∙◌, ap₂, Bool-cases, inl, inr, ltb, false,
}
use playgroundjs_plugin.Bindings.ProvidedNatives.{
  StoredNative, count_signature, is_parameter, is_reference, read_argument, read_arguments,
  write_element, write_elements, use_returned, Returned, NativeArgument, Element, int32_element,
  float_argument, number_element, other_element, text_element, integer_argument, string_argument,
  int32_returned, array_returned, nothing_returned, other_returned,
}
use playgroundjs_plugin.Plugin.NativeParameters.{
  NativeParameters, Written, count, checked, get_parameter, get_string_parameter, set_parameter,
  set_string_parameter, write_at, cell_written, text_written,
}

-- The counts kept with a native are those of its signature.
abbrev pub IsStored : StoredNative → Type 0
IsStored native =
    count_signature native.signature (0, 0) ≡ some (native.param_count, native.retval_count)

pub checked_lem :
    {A : Type 0} (params : NativeParameters) (index : ℕ) (a : A)
    → index < count params
    → checked params index a ≡ some a
unfolding checked
checked_lem params index a h = rw (lt→ltb index (count params) h) refl

-- How many arguments the characters of a signature stand for.
abbrev pub inputs : Bytes → ℕ
inputs [] = 0
inputs (c ∷ signature) = if is_parameter c then inputs signature + 1 else inputs signature

pub count_signature-inputs :
    (signature : Bytes) (params retvals : ℕ) (counts : ℕ × ℕ)
    → count_signature signature (params, retvals) ≡ some counts
    → counts.0 ≡ params + inputs signature
unfolding count_signature
count_signature-inputs [] params retvals counts e = ground arith
count_signature-inputs (c ∷ signature) params retvals counts e = ground (
  arith,
  count_signature-inputs signature (params + 1) retvals counts,
  count_signature-inputs signature params (retvals + 1) counts,
  e,
)

-- The argument that the position `i` stands for, if it stands for one.
abbrev pub argument_at : NativeParameters → ℕ → ℕ → List NativeArgument
argument_at params i c =
    if c == 102
    then float_argument (params.params (i + 1)) ∷ []
    else if c == 105
    then integer_argument (params.params (i + 1)) ∷ []
    else if c == 115
    then string_argument (read_string_from_amx params.amx (params.params (i + 1))) ∷ []
    else []

abbrev pub arguments_from : NativeParameters → ℕ → Bytes → List NativeArgument
arguments_from params i [] = []
arguments_from params i (c ∷ signature) =
    argument_at params i c ++ arguments_from params (i + 1) signature

-- What is written for an element, at a position with this character.
abbrev pub element_at : ℕ → Element → Written
element_at c (int32_element bits float_bits) =
    if c == 70
    then cell_written float_bits
    else if c == 73
    then cell_written bits
    else text_written [] 1
element_at c (number_element float_bits) =
    if c == 70
    then cell_written float_bits
    else if c == 73
    then cell_written minus_one
    else text_written [] 1
element_at c (text_element value) =
    if c == 70
    then cell_written minus_one_float
    else if c == 73
    then cell_written minus_one
    else text_written value (length value + 1)
element_at c other_element =
    if c == 70
    then cell_written minus_one_float
    else if c == 73
    then cell_written minus_one
    else text_written [] 1

-- What is written for the elements: at each reference of the signature, the next of them.
abbrev pub written_from :
    NativeParameters → ℕ → Bytes → List Element → List (ℕ × Written) → List (ℕ × Written)
written_from params i [] elements writes = writes
written_from params i (c ∷ signature) [] writes =
    written_from params (i + 1) signature []
      (if is_reference c then write_at params i (element_at c other_element) writes else writes)
written_from params i (c ∷ signature) (element ∷ elements) writes =
    if is_reference c
    then written_from params (i + 1) signature elements
        (write_at params i (element_at c element) writes)
    else written_from params (i + 1) signature (element ∷ elements) writes

pub length-argument_at :
    (params : NativeParameters) (i c : ℕ)
    → length (argument_at params i c) ≡ (if is_parameter c then 1 else 0)
length-argument_at params i c = ground arith

pub length-arguments_from :
    (params : NativeParameters) (i : ℕ) (signature : Bytes)
    → length (arguments_from params i signature) ≡ inputs signature
length-arguments_from params i [] = refl
length-arguments_from params i (c ∷ signature) =
    length-append (argument_at params i c) (arguments_from params (i + 1) signature)
    ∙ ap₂ (◌+◌) (length-argument_at params i c) (length-arguments_from params (i + 1) signature)
    ∙ ground arith

pub read_argument_lem :
    (params : NativeParameters) (i c : ℕ)
    → i < count params
    → read_argument params i c ≡ some (argument_at params i c)
unfolding read_argument get_parameter get_string_parameter
read_argument_lem params i c h = ground (
  arith,
  checked_lem params i (params.params (i + 1)) h,
  checked_lem params i (read_string_from_amx params.amx (params.params (i + 1))) h,
)

pub read_arguments_lem :
    (params : NativeParameters) (i : ℕ) (signature : Bytes)
    → i + length signature ≤ count params
    → read_arguments params i signature ≡ some (arguments_from params i signature)
unfolding read_arguments
read_arguments_lem params i [] h = refl
read_arguments_lem params i (c ∷ signature) h =
    rw
      (
        read_argument_lem params i c (omega arith),
        read_arguments,
        read_arguments_lem params (i + 1) signature (omega arith),
      )
      refl

pub write_element_lem :
    (params : NativeParameters) (i c : ℕ) (element : Element) (writes : List (ℕ × Written))
    → i < count params
    → is_reference c ≡ true
    → write_element params i c element writes
      ≡ some (write_at params i (element_at c element) writes)
unfolding write_element set_parameter set_string_parameter checked
write_element_lem params i c (int32_element bits float_bits) writes h r = ground arith
write_element_lem params i c (number_element float_bits) writes h r = ground arith
write_element_lem params i c (text_element []) writes h r = ground arith
write_element_lem params i c (text_element (d ∷ text)) writes h r = ground arith
write_element_lem params i c other_element writes h r = ground arith

pub write_elements_lem :
    (params : NativeParameters) (i : ℕ) (signature : Bytes) (elements : List Element)
    (writes : List (ℕ × Written))
    → i + length signature ≤ count params
    → write_elements params i signature elements writes
      ≡ some (written_from params i signature elements writes)
unfolding write_elements
write_elements_lem params i [] elements writes h = refl
write_elements_lem params i (c ∷ signature) [] writes h = elim (Bool-cases (is_reference c)) [
  | inl r ↦
      rw (r, write_element_lem params i c other_element writes (omega arith) r)
        (write_elements_lem params (i + 1) signature []
          (write_at params i (element_at c other_element) writes) (omega arith))
  | inr r ↦ rw r (write_elements_lem params (i + 1) signature [] writes (omega arith))
]
write_elements_lem params i (c ∷ signature) (element ∷ elements) writes h =
    elim (Bool-cases (is_reference c)) [
      | inl r ↦
          rw (r, write_element_lem params i c element writes (omega arith) r)
            (write_elements_lem params (i + 1) signature elements
              (write_at params i (element_at c element) writes) (omega arith))
      | inr r ↦
          rw r
            (write_elements_lem params (i + 1) signature (element ∷ elements) writes (omega arith))
    ]

-- What the gamemode gets for a value returned.
abbrev pub promised_answer : NativeParameters → StoredNative → Returned → ℕ × List (ℕ × Written)
promised_answer params native nothing_returned =
    (if native.retval_count == 0 then 0 else minus_one, [])
promised_answer params native (int32_returned bits) =
    (if native.retval_count == 0 then bits else minus_one, [])
promised_answer params native (array_returned elements) =
    if native.retval_count == 0
    then (1, [])
    else if length elements == native.retval_count
    then (1, written_from params 0 native.signature elements [])
    else (minus_one, [])
promised_answer params native other_returned =
    (if native.retval_count == 0 then 1 else minus_one, [])

pub use_returned_lem :
    (params : NativeParameters) (native : StoredNative) (returned : Returned)
    → length native.signature ≤ count params
    → use_returned params native returned ≡ some (promised_answer params native returned)
unfolding use_returned
use_returned_lem params native nothing_returned h = ground arith
use_returned_lem params native (int32_returned bits) h = ground arith
use_returned_lem params native (array_returned elements) h =
    ground (arith, write_elements_lem params 0 native.signature elements [] (omega arith))
use_returned_lem params native other_returned h = ground arith

pub inputs_le : (signature : Bytes) → inputs signature ≤ length signature
inputs_le [] = omega arith
inputs_le (c ∷ signature) = ground (arith, inputs_le signature)

pub param_count_le :
    (native : StoredNative) (params : NativeParameters)
    → IsStored native
    → length native.signature ≤ count params
    → (ltb (count params) native.param_count ≡ false)
      × (native.param_count ≡ inputs native.signature)
param_count_le native params stored h =
    let counted =
      count_signature-inputs native.signature 0 0 (native.param_count, native.retval_count)
        stored in
    (ground (arith, inputs_le native.signature, counted), omega (arith, counted))
