-- ===== src/Bindings/Streamer/Batches.antt =====
-- The loops of src/playground/bindings/modules/streamer/streamer.cc: they end, stay within the
-- bound, and take all that there is as long as it fits.
use playgroundjs_plugin.Common.{
  IsAscending, ◌≤◌, inl, elem, ◌≡◌, inr, true, ◌⊎◌, ◌+◌, refl, Bool-cases, arith, elem-insert_id,
  ◌==◌, insert_id-IsAscending, elem-insert_id_keep, length-insert_id_le, elem_cases, subst, sym,
  elem-insert_id_self, elem-there, Bool, length-insert_id_ge, false≢true, ◌≢◌, false, ◌||◌,
}
use playgroundjs_plugin.Bindings.Streamer.{
  batch_loop, List, Batch, length, ◌∷◌, [], insert_id, ltb, left_over,
}
use Prim.Native.Nat.{ℕ, ◌<◌, suc}

-- What every run of the inner loop does: it gives a part of the iterator, from its front, to the
-- set, which stays within the bound, and stops early only for a full set or an empty iterator.
pub record IsBatch (max_visible max_per_player : ℕ) (iterator entities : List ℕ) (batch_size : ℕ)
    (b : Batch) : Type 0 where
  pub sorted : IsAscending entities → IsAscending b.entities
  pub bounded : length entities ≤ max_visible → length b.entities ≤ max_visible
  pub grown : length entities ≤ length b.entities
  pub kept : (x : ℕ) → elem x entities ≡ true → elem x b.entities ≡ true
  pub given :
      (x : ℕ) → elem x iterator ≡ true → (elem x b.iterator ≡ true) ⊎ (elem x b.entities ≡ true)
  pub origin :
      (x : ℕ) → elem x b.entities ≡ true → (elem x entities ≡ true) ⊎ (elem x iterator ≡ true)
  pub left : (x : ℕ) → elem x b.iterator ≡ true → elem x iterator ≡ true
  pub counted : length b.iterator + b.batch_size ≡ length iterator + batch_size
  pub capped : b.batch_size ≤ max_per_player
  pub stopped :
      b.batch_size < max_per_player → (length b.entities ≡ max_visible) ⊎ (b.iterator ≡ [])

inserted-origin :
    (x id : ℕ) (iterator entities : List ℕ)
    → elem x (insert_id id entities) ≡ true
    → (elem x entities ≡ true) ⊎ (elem x (id ∷ iterator) ≡ true)
unfolding elem
inserted-origin x id iterator entities h = ground (arith, elem-insert_id x id entities)

pub batch_loop-IsBatch :
    (max_visible max_per_player : ℕ) (iterator : List ℕ) (batch_size : ℕ) (entities : List ℕ)
    → length entities < max_visible
    → batch_size ≤ max_per_player
    → IsBatch max_visible max_per_player iterator entities batch_size
        (batch_loop max_visible max_per_player iterator batch_size entities)
unfolding batch_loop
batch_loop-IsBatch v p [] n es room fits = record {
  sorted = λ h. h;
  bounded = λ h. h;
  grown = omega arith;
  kept = λ x h. h;
  given = λ x h. inl h;
  origin = λ x h. inl h;
  left = λ x h. h;
  counted = refl;
  capped = fits;
  stopped = λ h. inr refl;
}
batch_loop-IsBatch v p (id ∷ iterator) n es room fits = elim (Bool-cases (ltb n p)) [
  | inl more ↦ elim (Bool-cases (length (insert_id id es) == v)) [
    | inl full ↦
        rw (more, full)
          (record {
            sorted = insert_id-IsAscending id es;
            bounded = λ h. ground arith;
            grown = length-insert_id_ge id es;
            kept = λ x h. elem-insert_id_keep x id es h;
            given = λ x h. inl h;
            origin = λ x h. inserted-origin x id iterator es h;
            left = λ x h. h;
            counted = refl;
            capped = fits;
            stopped = λ h. inl (ground arith);
          })
    | inr rest ↦
        let b =
          batch_loop-IsBatch v p iterator (suc n) (insert_id id es)
            (ground (arith, length-insert_id_le id es)) (ground arith) in
        rw (more, rest)
          (record {
            sorted = λ h. b.sorted (insert_id-IsAscending id es h);
            bounded = λ h. b.bounded (ground (arith, length-insert_id_le id es));
            grown = omega (arith, b.grown, length-insert_id_ge id es);
            kept = λ x h. b.kept x (elem-insert_id_keep x id es h);
            given = λ x h. elim (elem_cases x id iterator h) [
              | inl here ↦ inr (
                  b.kept x (
                    subst (λ y. elem y (insert_id id es) ≡ true) (sym here)
                      (elem-insert_id_self id es)))
              | inr there ↦ b.given x there
            ];
            origin = λ x h. elim (b.origin x h) [
              | inl early ↦ inserted-origin x id iterator es early
              | inr late ↦ inr (elem-there x id iterator late)
            ];
            left = λ x h. elem-there x id iterator (b.left x h);
            counted = omega (arith, b.counted);
            capped = b.capped;
            stopped = b.stopped;
          })
  ]
  | inr done ↦ rw done (record {
    sorted = λ h. h;
    bounded = λ h. h;
    grown = omega arith;
    kept = λ x h. h;
    given = λ x h. inl h;
    origin = λ x h. inl h;
    left = λ x h. h;
    counted = refl;
    capped = fits;
    stopped = λ h. absurd (ground arith);
  })
]

-- An iterator still gives the id.
unfoldable pub among : ℕ → List (List ℕ) → Bool
among x [] = false
among x (iterator ∷ iterators) = elem x iterator || among x iterators

pub among_cases :
    (x : ℕ) (iterator : List ℕ) (iterators : List (List ℕ))
    → among x (iterator ∷ iterators) ≡ true
    → (elem x iterator ≡ true) ⊎ (among x iterators ≡ true)
unfolding among
among_cases x iterator iterators h = ground arith

among-here :
    (x : ℕ) (iterator : List ℕ) (iterators : List (List ℕ))
    → elem x iterator ≡ true
    → among x (iterator ∷ iterators) ≡ true
unfolding among
among-here x iterator iterators h = ground arith

among-there :
    (x : ℕ) (iterator : List ℕ) (iterators : List (List ℕ))
    → among x iterators ≡ true
    → among x (iterator ∷ iterators) ≡ true
unfolding among
among-there x iterator iterators h = ground arith

-- What a round over the iterators does.
pub record IsRound (max_visible : ℕ) (iterators : List (List ℕ)) (entities : List ℕ)
    (left : List (List ℕ)) (result : List ℕ) : Type 0 where
  pub sorted : IsAscending entities → IsAscending result
  pub bounded : length result ≤ max_visible
  pub grown : length entities ≤ length result
  pub kept : (x : ℕ) → elem x entities ≡ true → elem x result ≡ true
  pub given :
      (length result ≡ max_visible)
      ⊎ ((x : ℕ) → among x iterators ≡ true → (among x left ≡ true) ⊎ (elem x result ≡ true))
  pub origin :
      (x : ℕ) → elem x result ≡ true → (elem x entities ≡ true) ⊎ (among x iterators ≡ true)
  pub remains : (x : ℕ) → among x left ≡ true → among x iterators ≡ true
  pub shrunk : left_over left ≤ left_over iterators
  pub progress :
      length entities < max_visible → 0 < length iterators → left_over left < left_over iterators

pub nothing_among {ℓ} : {A : Type ℓ} (x : ℕ) → among x [] ≡ true → A
unfolding among
nothing_among x h = absurd (false≢true h)

nothing_left : (x : ℕ) (iterator : List ℕ) → iterator ≡ [] → elem x iterator ≡ true → ⊥
unfolding elem
nothing_left x iterator e h = false≢true (subst (λ i. elem x i ≡ true) e h)

-- A round over an iterator and those behind it.
module _ (v p : ℕ) (iterator : List ℕ) (iterators : List (List ℕ)) (es : List ℕ) (b : Batch)
    (fresh : length es < v) (some_more : 0 < p) (batch : IsBatch v p iterator es 0 b)
    (left : List (List ℕ)) (result : List ℕ)
    (behind : IsRound v iterators b.entities left result) where
  step-origin :
      (x : ℕ) → elem x result ≡ true → (elem x es ≡ true) ⊎ (among x (iterator ∷ iterators) ≡ true)
  step-origin x h = elim (behind.origin x h) [
    | inr later ↦ inr (among-there x iterator iterators later)
    | inl early ↦ elim (batch.origin x early) [
      | inl old ↦ inl old
      | inr new ↦ inr (among-here x iterator iterators new)
    ]
  ]

  pub step-keeping :
      b.batch_size ≡ p → IsRound v (iterator ∷ iterators) es (b.iterator ∷ left) result
  step-keeping e = record {
    sorted = λ h. behind.sorted (batch.sorted h);
    bounded = behind.bounded;
    grown = omega (arith, batch.grown, behind.grown);
    kept = λ x h. behind.kept x (batch.kept x h);
    given = elim behind.given [
      | inl full ↦ inl full
      | inr g ↦ inr (λ x h. elim (among_cases x iterator iterators h) [
        | inr later ↦ elim (g x later) [
          | inl l ↦ inl (among-there x b.iterator left l)
          | inr r ↦ inr r
        ]
        | inl here ↦ elim (batch.given x here) [
          | inl l ↦ inl (among-here x b.iterator left l)
          | inr r ↦ inr (behind.kept x r)
        ]
      ])
    ];
    origin = step-origin;
    remains = λ x h. elim (among_cases x b.iterator left h) [
      | inl here ↦ among-here x iterator iterators (batch.left x here)
      | inr later ↦ among-there x iterator iterators (behind.remains x later)
    ];
    shrunk = omega (arith, batch.counted, behind.shrunk);
    progress = λ h k. omega (arith, batch.counted, behind.shrunk, e);
  }

  pub step-erasing : b.batch_size ≢ p → IsRound v (iterator ∷ iterators) es left result
  step-erasing ne = record {
    sorted = λ h. behind.sorted (batch.sorted h);
    bounded = behind.bounded;
    grown = omega (arith, batch.grown, behind.grown);
    kept = λ x h. behind.kept x (batch.kept x h);
    given = elim (batch.stopped (omega (arith, batch.capped))) [
      | inl full ↦ inl (omega (arith, behind.grown, behind.bounded))
      | inr empty ↦ elim behind.given [
        | inl full ↦ inl full
        | inr g ↦ inr (λ x h. elim (among_cases x iterator iterators h) [
          | inr later ↦ g x later
          | inl here ↦ elim (batch.given x here) [
            | inl l ↦ absurd (nothing_left x b.iterator empty l)
            | inr r ↦ inr (behind.kept x r)
          ]
        ])
      ]
    ];
    origin = step-origin;
    remains = λ x h. among-there x iterator iterators (behind.remains x h);
    shrunk = omega (arith, behind.shrunk);
    progress = λ h k. omega (arith, behind.shrunk);
  }
