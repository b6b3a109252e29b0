-- ===== src/Plugin/CallbackHook/Extraction.antt =====
-- What src/playground/plugin/callback_hook.cc reads for the arguments of a callback.
use playgroundjs_plugin.Plugin.Values.{
  add_integer, add_float, Arguments, get_integer, add_string, get_float, get_string, int_value,
  float_value, string_value,
}
use playgroundjs_plugin.Plugin.Callback.{
  CallbackArgumentType, Callback, type_int, type_float, type_string,
}
use playgroundjs_plugin.Plugin.Amx.{Amx, read_string_from_amx, read_from_stack}
use playgroundjs_plugin.Plugin.CallbackHook.{
  extract_arguments, extract_argument, extract_typed, intercepted_arguments, Extracted,
}
use playgroundjs_plugin.Common.{
  [], ℕ, Bytes, List, bytes_eq, All, codes, find_text, false, ◌≡◌, ◌∷◌, find_text-put, ◌++◌, refl,
  ◌∙◌, length, ◌+◌, ap, arith, some, find_text-put_self,
}

-- Reading an argument by its name and type gives the cell of the stack at its place, or the text
-- that this cell refers to.
abbrev pub ReadsFromStack : Amx → Bytes → CallbackArgumentType → ℕ → Arguments → Type 0
ReadsFromStack amx name type_int place values = get_integer name values ≡ amx.stack place
ReadsFromStack amx name type_float place values = get_float name values ≡ amx.stack place
ReadsFromStack amx name type_string place values =
    get_string name values ≡ read_string_from_amx amx (amx.stack place)

-- None of the arguments has this name.
abbrev pub IsUnused : Bytes → List (Bytes × CallbackArgumentType) → Type 0
IsUnused name arguments = All (λ a. bytes_eq name a.0 ≡ false) arguments

extract_typed-ne :
    (amx : Amx) (index : ℕ) (name : Bytes) (a : Bytes × CallbackArgumentType) (values : Arguments)
    → bytes_eq name a.0 ≡ false
    → find_text name (extract_typed amx index a values) ≡ find_text name values
unfolding extract_typed add_integer add_float add_string
extract_typed-ne amx index name (other, type_int) values h =
    find_text-put name other _ values ∙ rw h refl
extract_typed-ne amx index name (other, type_float) values h =
    find_text-put name other _ values ∙ rw h refl
extract_typed-ne amx index name (other, type_string) values h =
    find_text-put name other _ values ∙ rw h refl

get_integer-found :
    (name : Bytes) (values : Arguments) (v : ℕ)
    → find_text name values ≡ some (int_value v)
    → get_integer name values ≡ v
unfolding get_integer
get_integer-found name values v e = rw (e, get_integer) refl

get_float-found :
    (name : Bytes) (values : Arguments) (v : ℕ)
    → find_text name values ≡ some (float_value v)
    → get_float name values ≡ v
unfolding get_float
get_float-found name values v e = rw (e, get_float) refl

get_string-found :
    (name : Bytes) (values : Arguments) (v : Bytes)
    → find_text name values ≡ some (string_value v)
    → get_string name values ≡ v
unfolding get_string
get_string-found name values v e = rw (e, get_string) refl

extract_typed-ReadsFromStack :
    (amx : Amx) (index : ℕ) (name : Bytes) (type : CallbackArgumentType) (values later : Arguments)
    → find_text name later ≡ find_text name (extract_typed amx index (name, type) values)
    → ReadsFromStack amx name type index later
unfolding extract_typed add_integer add_float add_string get_integer get_float get_string
    read_from_stack
extract_typed-ReadsFromStack amx index name type_int values later e =
    get_integer-found name later _ (e ∙ find_text-put_self name _ values)
extract_typed-ReadsFromStack amx index name type_float values later e =
    get_float-found name later _ (e ∙ find_text-put_self name _ values)
extract_typed-ReadsFromStack amx index name type_string values later e =
    get_string-found name later _ (e ∙ find_text-put_self name _ values)

extract_arguments-append :
    (amx : Amx) (index : ℕ) (front rest : List (Bytes × CallbackArgumentType)) (e : Extracted)
    → extract_arguments amx false index (front ++ rest) e
      ≡ extract_arguments amx false
          (index + length front)
          rest
          (extract_arguments amx false index front e)
unfolding extract_arguments
extract_arguments-append amx index [] rest e =
    ap (λ i. extract_arguments amx false i rest e) (omega arith)
extract_arguments-append amx index (a ∷ front) rest e =
    extract_arguments-append amx (index + 1) front rest (extract_argument amx false index a e)
    ∙ ap
        (λ i.
          extract_arguments amx false i rest
            (extract_arguments amx false (index + 1) front (extract_argument amx false index a e)))
        (omega arith)

extract_argument-values :
    (amx : Amx) (index : ℕ) (a : Bytes × CallbackArgumentType) (e : Extracted)
    → (extract_argument amx false index a e).values ≡ extract_typed amx index a e.values
unfolding extract_argument
extract_argument-values amx index a e = refl

extract_arguments-unused :
    (amx : Amx) (index : ℕ) (name : Bytes) (arguments : List (Bytes × CallbackArgumentType))
    (e : Extracted)
    → IsUnused name arguments
    → find_text name (extract_arguments amx false index arguments e).values
      ≡ find_text name e.values
unfolding extract_arguments
extract_arguments-unused amx index name [] e h = refl
extract_arguments-unused amx index name (a ∷ arguments) e h =
    extract_arguments-unused amx (index + 1) name arguments (extract_argument amx false index a e)
      h.1
    ∙ ap (find_text name) (extract_argument-values amx index a e)
    ∙ extract_typed-ne amx index name a e.values h.0

-- The delegate is given, under the name of each argument that no later one has, the cell of the
-- stack at the place of that argument, with the argument's type; for every callback but
-- CAC_OnMemoryRead, whose arguments are read in another way.
pub intercepted_arguments-ReadsFromStack :
    (amx : Amx) (callback : Callback) (buffer : List ℕ)
    (front : List (Bytes × CallbackArgumentType)) (name : Bytes) (type : CallbackArgumentType)
    (rest : List (Bytes × CallbackArgumentType))
    → bytes_eq callback.name (codes "CAC_OnMemoryRead") ≡ false
    → callback.arguments ≡ front ++ ((name, type) ∷ rest)
    → IsUnused name rest
    → ReadsFromStack amx name type (length front) (intercepted_arguments amx callback buffer).values
unfolding intercepted_arguments extract_arguments
intercepted_arguments-ReadsFromStack amx callback buffer front name type rest plain e unused =
    let start : Extracted = record { memory_read_size = 0; values = []; buffer = buffer } in
    let before = extract_arguments amx false 0 front start in
    extract_typed-ReadsFromStack amx (length front) name type before.values _ (
      ap (λ b. find_text name (extract_arguments amx b 0 callback.arguments start).values) plain
      ∙ ap (λ l. find_text name (extract_arguments amx false 0 l start).values) e
      ∙ ap (λ x. find_text name x.values)
          (extract_arguments-append amx 0 front ((name, type) ∷ rest) start)
      ∙ ap (λ i. find_text name (extract_arguments amx false i ((name, type) ∷ rest) before).values)
          (omega arith)
      ∙ extract_arguments-unused amx (length front + 1) name rest
          (extract_argument amx false (length front) (name, type) before) unused
      ∙ ap (find_text name) (extract_argument-values amx (length front) (name, type) before))
