-- ===== src/Bindings/Exceptions/Attributions.antt =====
-- How many attributions are kept, and which.
use playgroundjs_plugin.Common.{
  List, ℕ, drop, ◌≡◌, ◌∷◌, ◌++◌, [], length, ◌∙◌, ap, ◌-◌, sym, append-nil, append_assoc, ◌≤◌,
  Bool-cases, ◌+◌, ltb, length-append, suc, arith, inl, ltb→lt, zero, length-drop, refl, drop-drop,
  inr, false,
}
use playgroundjs_plugin.Bindings.Exceptions.{
  Attribution, ExceptionHandler, register_attributed_error, drop_oldest,
}

abbrev pub register_every : List Attribution → ExceptionHandler → ExceptionHandler
register_every [] h = h
register_every (attribution ∷ attributions) h =
    register_every attributions (register_attributed_error attribution h)

-- The last so many of a list.
abbrev pub last_of : ℕ → List Attribution → List Attribution
last_of n attributions = drop (length attributions - n) attributions

drop-append_le :
    (n : ℕ) (xs ys : List Attribution) → n ≤ length xs → drop n (xs ++ ys) ≡ drop n xs ++ ys
drop-append_le zero xs ys h = refl
drop-append_le (suc n) [] ys h = absurd (omega arith)
drop-append_le (suc n) (x ∷ xs) ys h = drop-append_le n xs ys (omega arith)

last_of-append :
    (n : ℕ) (all : List Attribution) (attribution : Attribution)
    → length all + 1 - 101 ≡ n
    → n ≤ length all
    → last_of 101 (all ++ (attribution ∷ [])) ≡ drop n all ++ (attribution ∷ [])
last_of-append n all attribution e h =
    ap (λ k. drop (k - 101) (all ++ (attribution ∷ []))) (length-append all (attribution ∷ []))
    ∙ ap (λ k. drop k (all ++ (attribution ∷ []))) e
    ∙ drop-append_le n all (attribution ∷ []) h

leb_of : (a b : ℕ) → ltb a b ≡ false → b ≤ a
leb_of a b h = ground arith

drop_oldest-last_of :
    (all : List Attribution) (attribution : Attribution)
    → drop_oldest (last_of 101 all) ++ (attribution ∷ []) ≡ last_of 101 (all ++ (attribution ∷ []))
unfolding drop_oldest
drop_oldest-last_of all attribution = elim (Bool-cases (ltb 100 (length (last_of 101 all)))) [
  | inl full ↦ rw full (
      ap (λ l. l ++ (attribution ∷ [])) (sym (drop-drop (length all - 101) 1 all))
      ∙ sym (
          last_of-append (length all - 101 + 1) all attribution
            (omega (
              arith,
              ltb→lt 100 (length (last_of 101 all)) full,
              length-drop (length all - 101) all,
            ))
            (omega (
              arith,
              ltb→lt 100 (length (last_of 101 all)) full,
              length-drop (length all - 101) all,
            ))))
  | inr room ↦ rw room (
      sym (
        last_of-append (length all - 101) all attribution
          (omega
            (arith, leb_of 100 (length (last_of 101 all)) room, length-drop (length all - 101) all))
          (omega arith)))
]

-- After any attributions of errors, the handler keeps the last 101 of them, in order.
pub register_every-last :
    (earlier attributions : List Attribution) (h : ExceptionHandler)
    → h.registered_attribution ≡ last_of 101 earlier
    → (register_every attributions h).registered_attribution ≡ last_of 101 (earlier ++ attributions)
unfolding register_attributed_error
register_every-last earlier [] h e = e ∙ ap (last_of 101) (sym (append-nil earlier))
register_every-last earlier (attribution ∷ attributions) h e =
    register_every-last (earlier ++ (attribution ∷ [])) attributions
      (register_attributed_error attribution h)
      (ap (λ l. drop_oldest l ++ (attribution ∷ [])) e ∙ drop_oldest-last_of earlier attribution)
    ∙ ap (last_of 101) (append_assoc earlier (attribution ∷ []) attributions)
