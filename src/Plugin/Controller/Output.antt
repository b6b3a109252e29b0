-- ===== src/Plugin/Controller/Output.antt =====
-- The chunks in which a message is printed.
use playgroundjs_plugin.Common.{
  List, ℕ, Bytes, Bool-cases, All, ◌≡◌, drop, length, take, ◌∷◌, ◌++◌, ◌≢◌, ◌≤◌, [], suc, ap, ◌∙◌,
  ltb, ==_ne, ◌<◌, append_assoc, append-nil, sym, inl, ◌+◌, refl, length-zero, arith, ap₂,
  length-drop, All-append, inr, subst, drop-drop, take-append-drop, length-take, zero,
}
use playgroundjs_plugin.Plugin.Controller.{
  PluginController, output, output_loop, logprintf, c_string, log_limit,
}

abbrev pub IsPlain : Bytes → Type 0
IsPlain text = All (λ c. c ≢ 0) text

abbrev pub concat_all : List Bytes → Bytes
concat_all [] = []
concat_all (text ∷ texts) = text ++ concat_all texts

c_string-plain : (text : Bytes) → IsPlain text → c_string text ≡ text
unfolding c_string
c_string-plain [] h = refl
c_string-plain (c ∷ text) h = rw (==_ne c 0 h.0, c_string-plain text h.1) refl

IsPlain-take : (n : ℕ) (text : Bytes) → IsPlain text → IsPlain (take n text)
IsPlain-take zero text h = tt
IsPlain-take (suc n) [] h = tt
IsPlain-take (suc n) (c ∷ text) h = (h.0, IsPlain-take n text h.1)

IsPlain-drop : (n : ℕ) (text : Bytes) → IsPlain text → IsPlain (drop n text)
IsPlain-drop zero text h = h
IsPlain-drop (suc n) [] h = tt
IsPlain-drop (suc n) (c ∷ text) h = IsPlain-drop n text h.1

-- What has been printed in between is this text, in pieces of at most the limit.
abbrev pub IsPrinted : Bytes → PluginController → PluginController → Type 0
IsPrinted text before after =
    (pieces : List Bytes) × (after.printed ≡ before.printed ++ pieces)
    × (concat_all pieces ≡ text)
    × All (λ piece. length piece ≤ log_limit) pieces

nothing-IsPrinted : (text : Bytes) (p : PluginController) → length text ≡ 0 → IsPrinted text p p
nothing-IsPrinted text p h = ([], sym (append-nil p.printed), sym (length-zero text h), tt)

logprintf-IsPrinted :
    (text : Bytes) (p : PluginController)
    → IsPlain text
    → length text ≤ log_limit
    → IsPrinted text p (logprintf text p)
unfolding logprintf
logprintf-IsPrinted text p h l =
    (text ∷ [], ap (λ t. p.printed ++ (t ∷ [])) (c_string-plain text h), append-nil text, (l, tt))

concat_all-append : (xs ys : List Bytes) → concat_all (xs ++ ys) ≡ concat_all xs ++ concat_all ys
concat_all-append [] ys = refl
concat_all-append (x ∷ xs) ys =
    ap (λ l. x ++ l) (concat_all-append xs ys)
    ∙ sym (append_assoc x (concat_all xs) (concat_all ys))

IsPrinted-trans :
    (first second : Bytes) (p q r : PluginController)
    → IsPrinted first p q
    → IsPrinted second q r
    → IsPrinted (first ++ second) p r
IsPrinted-trans first second p q r (xs, e, whole, short) (ys, f, rest, short_rest) = (
  xs ++ ys,
  f ∙ ap (λ l. l ++ ys) e ∙ append_assoc p.printed xs ys,
  concat_all-append xs ys ∙ ap₂ (◌++◌) whole rest,
  All-append (λ piece. length piece ≤ log_limit) xs ys short short_rest,
)

output_loop-IsPrinted :
    (fuel offset : ℕ) (message : Bytes) (p : PluginController)
    → IsPlain message
    → length message < fuel + offset
    → IsPrinted (drop offset message) p (output_loop fuel offset message p)
unfolding output_loop
output_loop-IsPrinted zero offset message p h enough =
    nothing-IsPrinted (drop offset message) p (length-drop offset message ∙ omega arith)
output_loop-IsPrinted (suc fuel) offset message p h enough =
    elim (Bool-cases (ltb offset (length message))) [
      | inl more ↦
          let piece = take log_limit (drop offset message) in
          rw more (
            subst
              (λ t.
                IsPrinted t p (output_loop fuel (offset + log_limit) message (logprintf piece p)))
              (ap (λ l. piece ++ l) (drop-drop offset log_limit message)
                ∙ take-append-drop log_limit (drop offset message))
              (IsPrinted-trans piece (drop (offset + log_limit) message) p (logprintf piece p)
                (output_loop fuel (offset + log_limit) message (logprintf piece p))
                (logprintf-IsPrinted piece p
                  (IsPlain-take log_limit (drop offset message) (IsPlain-drop offset message h))
                  (omega (arith, length-take log_limit (drop offset message))))
                (output_loop-IsPrinted fuel (offset + log_limit) message (logprintf piece p) h
                  (omega arith))))
      | inr done ↦
          rw done
            (nothing-IsPrinted (drop offset message) p (length-drop offset message ∙ ground arith))
    ]

-- A message without NUL is printed whole, in order, in pieces of at most 2048 bytes.
pub output-IsPrinted :
    (message : Bytes) (p : PluginController)
    → IsPlain message
    → IsPrinted message p (output message p)
unfolding output
output-IsPrinted message p h = elim (Bool-cases (ltb (length message) log_limit)) [
  | inl short ↦ rw short (logprintf-IsPrinted message p h (ground arith))
  | inr long ↦ rw long (output_loop-IsPrinted (length message + 1) 0 message p h (omega arith))
]
