-- ===== src/Plugin/CallbackManager/Marshalling.antt =====
-- How the parameters of a call reach the public function.
use playgroundjs_plugin.Plugin.CallbackManager.Releases.{
  count_allocated, released_from, count_allocated-append, releases-count,
}
use playgroundjs_plugin.Plugin.Values.{minus_one}
use playgroundjs_plugin.Common.{
  [], ℕ, List, Bytes, Bool, ◌∷◌, ◌≡◌, false, ltb, ◌++◌, ◌&&◌, reverse, ◌-◌, map, ◌==◌, ap, some,
  arith, suc, sym, ◌∙◌, append-nil, append_assoc, reverse-cons, length, true, none, refl, ◌+◌,
}
use playgroundjs_plugin.Plugin.CallbackManager.{
  CallbackManager, Gamemode, AmxCall, PublicArgument, push_params, push_param, format_at,
  invoke_public, releases, call_public, has_reference, pushed_cell, pushed_string, pushed_array,
  executed, ignore_begins, ignore_ends,
}
use playgroundjs_plugin.Plugin.CallbackManager.IndexCache.{
  IsIndexCache, answer_for, call_gamemode_lem, call_public-some, callback_index-cached,
}

-- A parameter as the caller means it.
pub data PublicParameter : Type 0 where
  cell_parameter float_parameter : (value : ℕ) → PublicParameter
  string_parameter : (text : Bytes) → PublicParameter
  array_parameter : (cells : List ℕ) → PublicParameter

abbrev pub pushed : PublicParameter → AmxCall
pushed (cell_parameter value) = pushed_cell value
pushed (float_parameter value) = pushed_cell value
pushed (string_parameter text) = pushed_string text
pushed (array_parameter cells) = pushed_array cells

-- The position behind the characters of a parameter, and of all of them.
abbrev pub behind : PublicParameter → ℕ → ℕ
behind (array_parameter cells) k = suc (suc k)
behind _ k = suc k

abbrev pub end_of : List PublicParameter → ℕ → ℕ
end_of [] k = k
end_of (p ∷ ps) k = end_of ps (behind p k)

-- From the position `k` on, the format and the arguments are those of the parameters: 'i', 'f' and
-- 's' with a value, and 'a' with an array, followed by 'i' with its size.
abbrev pub Describes : Bytes → (ℕ → PublicArgument) → ℕ → List PublicParameter → Type 0
Describes format arguments k [] = Unit
Describes format arguments k (cell_parameter value ∷ ps) =
    (format_at format k ≡ 105)
    × ((arguments k).as_cell ≡ value)
    × Describes format arguments (suc k) ps
Describes format arguments k (float_parameter value ∷ ps) =
    (format_at format k ≡ 102)
    × ((arguments k).as_cell ≡ value)
    × Describes format arguments (suc k) ps
Describes format arguments k (string_parameter text ∷ ps) =
    (format_at format k ≡ 115)
    × ((arguments k).as_text ≡ text)
    × Describes format arguments (suc k) ps
Describes format arguments k (array_parameter cells ∷ ps) =
    (format_at format k ≡ 97)
    × (format_at format (suc k) ≡ 105)
    × ((arguments k).as_cells (arguments (suc k)).as_cell ≡ cells)
    × Describes format arguments (suc (suc k)) ps

module _ (format : Bytes) (arguments : ℕ → PublicArgument) where
  -- Whether the position behind `k` characters is that of the size of an array.
  abbrev behind_array : ℕ → Bool
  behind_array k = ltb 0 k && format_at format (k - 1) == 97

  push_last :
      (k : ℕ) (calls pushed : List AmxCall)
      → (format_at format k == 105) && behind_array k ≡ false
      → push_param format arguments k calls ≡ some pushed
      → push_params format arguments (suc k) calls ≡ push_params format arguments k pushed
  unfolding push_params
  push_last k calls pushed h e = ground arith

  skip_size :
      (k : ℕ) (calls : List AmxCall)
      → format_at format k ≡ 97
      → format_at format (suc k) ≡ 105
      → push_params format arguments (suc (suc k)) calls
        ≡ push_params format arguments (suc k) calls
  unfolding push_params
  skip_size k calls a i = ground arith

  push_one :
      (k : ℕ) (p : PublicParameter) (ps : List PublicParameter) (calls : List AmxCall)
      → Describes format arguments k (p ∷ ps)
      → behind_array k ≡ false
      → push_params format arguments (behind p k) calls
        ≡ push_params format arguments k (calls ++ (pushed p ∷ []))
  unfolding push_param
  push_one k (cell_parameter value) ps calls d free =
      push_last k calls (calls ++ (pushed_cell value ∷ [])) (ground arith)
        (ground (arith, d.0, d.1))
  push_one k (float_parameter value) ps calls d free =
      push_last k calls (calls ++ (pushed_cell value ∷ [])) (ground (arith, d.0))
        (ground (arith, d.0, d.1))
  push_one k (string_parameter text) ps calls d free =
      push_last k calls (calls ++ (pushed_string text ∷ [])) (ground (arith, d.0))
        (ground (arith, d.0, d.1))
  push_one k (array_parameter cells) ps calls d free =
      skip_size k calls d.0 d.1
      ∙ push_last k calls (calls ++ (pushed_array cells ∷ [])) (ground (arith, d.0))
          (ground (arith, d.0, d.1, d.2))

  Describes-rest :
      (k : ℕ) (p : PublicParameter) (ps : List PublicParameter)
      → Describes format arguments k (p ∷ ps)
      → Describes format arguments (behind p k) ps
  Describes-rest k (cell_parameter value) ps d = d.2
  Describes-rest k (float_parameter value) ps d = d.2
  Describes-rest k (string_parameter text) ps d = d.2
  Describes-rest k (array_parameter cells) ps d = d.3

  behind_free :
      (k : ℕ) (p : PublicParameter) (ps : List PublicParameter)
      → Describes format arguments k (p ∷ ps)
      → behind_array (behind p k) ≡ false
  behind_free k (cell_parameter value) ps d = ground (arith, d.0)
  behind_free k (float_parameter value) ps d = ground (arith, d.0)
  behind_free k (string_parameter text) ps d = ground (arith, d.0)
  behind_free k (array_parameter cells) ps d = ground (arith, d.1)

  push_params-pushed :
      (k : ℕ) (ps : List PublicParameter) (calls : List AmxCall)
      → Describes format arguments k ps
      → behind_array k ≡ false
      → push_params format arguments (end_of ps k) calls
        ≡ push_params format arguments k (calls ++ reverse (map pushed ps))
  push_params-pushed k [] calls d free =
      ap (push_params format arguments k) (sym (append-nil calls))
  push_params-pushed k (p ∷ ps) calls d free =
      push_params-pushed (behind p k) ps calls (Describes-rest k p ps d) (behind_free k p ps d)
      ∙ push_one k p ps (calls ++ reverse (map pushed ps)) d free
      ∙ ap (push_params format arguments k) (
          append_assoc calls (reverse (map pushed ps)) (pushed p ∷ [])
          ∙ ap (λ l. calls ++ l) (sym (reverse-cons (pushed p) (map pushed ps))))

total_lem :
    (format : Bytes) (arguments : ℕ → PublicArgument) (ps : List PublicParameter)
    → Describes format arguments 0 ps
    → length format ≡ end_of ps 0
    → push_params format arguments (length format) [] ≡ (true, reverse (map pushed ps))
unfolding push_params
total_lem format arguments ps d e =
    ap (λ n. push_params format arguments n []) e
    ∙ push_params-pushed format arguments 0 ps [] d refl

-- What the AMX is asked for a call of the function with this index: each parameter is pushed, the
-- last one first, an array once with its size not pushed, and then, with the hook of callbacks
-- inactive, the function is executed.
abbrev pub asked : ℕ → List PublicParameter → List AmxCall
asked index ps = reverse (map pushed ps) ++ (ignore_begins ∷ executed index ∷ [])

-- How many of the parameters are texts and arrays.
abbrev pub count_memory : List PublicParameter → ℕ
count_memory [] = 0
count_memory (string_parameter text ∷ ps) = count_memory ps + 1
count_memory (array_parameter cells ∷ ps) = count_memory ps + 1
count_memory (_ ∷ ps) = count_memory ps

count_pushed :
    (p : PublicParameter) (ps : List PublicParameter)
    → count_memory ps + count_allocated (pushed p ∷ []) ≡ count_memory (p ∷ ps)
count_pushed (cell_parameter value) ps = omega arith
count_pushed (float_parameter value) ps = omega arith
count_pushed (string_parameter text) ps = omega arith
count_pushed (array_parameter cells) ps = omega arith

count_allocated-reverse :
    (ps : List PublicParameter) → count_allocated (reverse (map pushed ps)) ≡ count_memory ps
count_allocated-reverse [] = refl
count_allocated-reverse (p ∷ ps) =
    ap count_allocated (reverse-cons (pushed p) (map pushed ps))
    ∙ count_allocated-append (reverse (map pushed ps)) (pushed p ∷ [])
    ∙ ap (λ n. n + count_allocated (pushed p ∷ [])) (count_allocated-reverse ps)
    ∙ count_pushed p ps

releases-asked :
    (index : ℕ) (ps : List PublicParameter)
    → releases 0 (asked index ps) ≡ released_from 0 (count_memory ps)
releases-asked index ps =
    releases-count 0 (asked index ps)
    ∙ ap (released_from 0) (
        count_allocated-append (reverse (map pushed ps)) (ignore_begins ∷ executed index ∷ [])
        ∙ ap (λ n. n + 0) (count_allocated-reverse ps)
        ∙ omega arith)

-- Where the gamemode has the function and the format describes the parameters, a call pushes all
-- of them from the last to the first, executes the function once, with the hook of callbacks
-- inactive only meanwhile, and then releases each of the texts and arrays once, which are numbered
-- from 0 in the order of their pushes; it returns what the function returns, or -1 if the AMX gives
-- no value.
pub call_public-asked :
    (gamemode : Gamemode) (name format : Bytes) (arguments : ℕ → PublicArgument)
    (m : CallbackManager) (index : ℕ) (ps : List PublicParameter)
    → m.gamemode ≡ some gamemode
    → IsIndexCache m
    → gamemode.find_public name ≡ some index
    → (index == minus_one) ≡ false
    → has_reference format ≡ false
    → Describes format arguments 0 ps
    → length format ≡ end_of ps 0
    → (call_public name format arguments m).0 ≡ (
      elim (gamemode.exec (asked index ps)) [ none ↦ minus_one | some value ↦ value ],
      asked index ps ++ (ignore_ends ∷ released_from 0 (count_memory ps)),
    )
unfolding invoke_public
call_public-asked gamemode name format arguments m index ps e cached known proper plain d whole =
    ap (λ r. r.0)
      (call_public-some gamemode name format arguments m e
        ∙ call_gamemode_lem gamemode name format arguments m)
    ∙ ap (answer_for gamemode format arguments)
        (callback_index-cached gamemode name m e cached ∙ known)
    ∙ rw (proper, plain, total_lem format arguments ps d whole, releases-asked index ps) refl
