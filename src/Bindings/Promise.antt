-- ===== src/Bindings/Promise.antt =====
-- src/playground/bindings/promise.cc: a promise that the plugin settles. `outcomes` is what the
-- resolver of v8 was asked, in order; v8 ignores all but the first.
use playgroundjs_plugin.Common.{
  List, Bool, if◌then◌else◌, ◌≡◌, ℕ, ◌∷◌, false, true, [], ◌++◌, replicate, length, arith, refl,
}

pub data Settlement : Type 0 where
  resolved rejected : (value : ℕ) → Settlement

-- `Promise`
pub record Promise : Type 0 where
  pub has_settled : Bool
  pub outcomes : List Settlement

abbrev pub new_promise : Promise
new_promise = record { has_settled = false; outcomes = [] }

-- `ResolveInternal` and `RejectInternal`, which differ in what they ask of the resolver.
unfoldable pub settle : Settlement → Promise → Bool × Promise
settle settlement p =
    if p.has_settled
    then (false, p)
    else (true, record { has_settled = true; outcomes = p.outcomes ++ (settlement ∷ []) })

unfoldable pub settle_all : List Settlement → Promise → List Bool × Promise
settle_all [] p = ([], p)
settle_all (s ∷ settlements) p =
    let first = settle s p in
    let rest = settle_all settlements first.1 in (first.0 ∷ rest.0, rest.1)

settled_lem :
    (settlements : List Settlement) (p : Promise)
    → p.has_settled ≡ true
    → settle_all settlements p ≡ (replicate (length settlements) false, p)
unfolding settle_all settle
settled_lem [] p h = refl
settled_lem (s ∷ settlements) p h = ground (arith, settled_lem settlements p h)

-- Of several attempts to settle a new promise, the first one does and says so; all others say that
-- they did not, and ask nothing of the resolver.
pub settle_all-first :
    (s : Settlement) (settlements : List Settlement)
    → settle_all (s ∷ settlements) new_promise ≡ (
      true ∷ replicate (length settlements) false,
      record { has_settled = true; outcomes = s ∷ [] },
    )
unfolding settle_all settle
settle_all-first s settlements =
    rw (settled_lem settlements (record { has_settled = true; outcomes = s ∷ [] }) refl) refl
