-- ===== src/Bindings/Timers/Due.antt =====
-- Which timers run.
use playgroundjs_plugin.Common.{
  [], ◌≡◌, ℕ, List, ◌∷◌, some, All, ◌<◌, ◌+◌, arith, ◌≤◌, suc, Option-cases, inl, inr, zero, subst,
  none, ltb, true, sym, false, refl, Bool-cases, ltb→lt,
}
use playgroundjs_plugin.Bindings.Timers.{TimerStorage, PriorityQueue, QueueLaws, one_if, take_due}

-- How often a timer for this promise at this time is in the list.
abbrev pub count_timers : ℕ → ℕ → List TimerStorage → ℕ
count_timers p t [] = 0
count_timers p t (timer ∷ timers) = one_if p t timer + count_timers p t timers

-- The times do not go back.
abbrev pub IsSorted : List TimerStorage → Type 0
IsSorted [] = Unit
IsSorted (timer ∷ timers) =
    All (λ later. timer.execution_time ≤ later.execution_time) timers × IsSorted timers

module _ (heap : PriorityQueue) (laws : QueueLaws heap) where
  -- Nothing waits for a time before this one.
  abbrev pub Above : ℕ → heap.Queue → Type 0
  Above bound q = (p t : ℕ) → 0 < laws.occurrences p t q → bound ≤ t

  Above-pop :
      (timer : TimerStorage) (q rest : heap.Queue)
      → heap.pop q ≡ some (timer, rest)
      → Above timer.execution_time rest
  Above-pop timer q rest e p t h =
      laws.top-least p t timer q rest e (omega (arith, laws.occurrences-pop p t timer q rest e, h))

  -- The time of the top is above a bound of the queue.
  bound_top :
      (bound : ℕ) (timer : TimerStorage) (q rest : heap.Queue)
      → heap.pop q ≡ some (timer, rest)
      → Above bound q
      → bound ≤ timer.execution_time
  bound_top bound timer q rest e h =
      h timer.promise timer.execution_time
        (ground (arith, laws.occurrences-pop timer.promise timer.execution_time timer q rest e))

  -- `ran` is what was due of the queue, and `left` the rest.
  pub record IsDue (q : heap.Queue) (current_time : ℕ) (ran : List TimerStorage) (left : heap.Queue)
      : Type 0 where
    pub kept : (p t : ℕ) → laws.occurrences p t q ≡ count_timers p t ran + laws.occurrences p t left
    pub due : All (λ timer. timer.execution_time ≤ current_time) ran
    pub not_due : (p t : ℕ) → 0 < laws.occurrences p t left → current_time < t
    pub sorted : IsSorted ran

  take_due-none :
      (fuel current_time : ℕ) (q : heap.Queue)
      → heap.pop q ≡ none
      → take_due heap (suc fuel) current_time q ≡ ([], q)
  unfolding take_due
  take_due-none fuel current_time q e = rw (e, take_due) refl

  take_due-late :
      (fuel current_time : ℕ) (timer : TimerStorage) (q rest : heap.Queue)
      → heap.pop q ≡ some (timer, rest)
      → ltb current_time timer.execution_time ≡ true
      → take_due heap (suc fuel) current_time q ≡ ([], q)
  unfolding take_due
  take_due-late fuel current_time timer q rest e late = rw (e, late, take_due) refl

  take_due-runs :
      (fuel current_time : ℕ) (timer : TimerStorage) (q rest : heap.Queue)
      → heap.pop q ≡ some (timer, rest)
      → ltb current_time timer.execution_time ≡ false
      → take_due heap (suc fuel) current_time q ≡ (
        timer ∷ (take_due heap fuel current_time rest).0,
        (take_due heap fuel current_time rest).1,
      )
  unfolding take_due
  take_due-runs fuel current_time timer q rest e due = rw (e, due, take_due) refl

  take_due-Above :
      (fuel current_time bound : ℕ) (q : heap.Queue)
      → Above bound q
      → All (λ timer. bound ≤ timer.execution_time) (take_due heap fuel current_time q).0
  unfolding take_due
  take_due-Above zero current_time bound q h = tt
  take_due-Above (suc fuel) current_time bound q h = elim (Option-cases (heap.pop q)) [
    | inl e ↦
        subst (λ r. All (λ timer. bound ≤ timer.execution_time) r.0)
          (sym (take_due-none fuel current_time q e)) tt
    | inr ((timer, rest), e) ↦ elim (Bool-cases (ltb current_time timer.execution_time)) [
      | inl late ↦
          subst (λ r. All (λ timer. bound ≤ timer.execution_time) r.0)
            (sym (take_due-late fuel current_time timer q rest e late)) tt
      | inr due ↦
          let reached = bound_top bound timer q rest e h in
          subst (λ r. All (λ timer. bound ≤ timer.execution_time) r.0)
            (sym (take_due-runs fuel current_time timer q rest e due))
            (
              reached,
              take_due-Above fuel current_time bound rest
                  (λ p t held. omega (arith, reached, Above-pop timer q rest e p t held)),
            )
    ]
  ]

  abbrev pub IsDueResult : heap.Queue → ℕ → List TimerStorage × heap.Queue → Type 0
  IsDueResult q current_time r = IsDue q current_time r.0 r.1

  nothing-IsDue :
      (q : heap.Queue) (current_time : ℕ)
      → ((p t : ℕ) → 0 < laws.occurrences p t q → current_time < t)
      → IsDue q current_time [] q
  nothing-IsDue q current_time h = record {
    kept = λ p t. omega arith;
    due = tt;
    not_due = h;
    sorted = tt;
  }

  take_due-IsDue :
      (fuel current_time : ℕ) (q : heap.Queue)
      → heap.size q ≤ fuel
      → IsDueResult q current_time (take_due heap fuel current_time q)
  unfolding take_due
  take_due-IsDue zero current_time q enough = elim (Option-cases (heap.pop q)) [
    | inl e ↦
        nothing-IsDue q current_time
          (λ p t h. absurd (omega (arith, laws.occurrences-none p t q e, h)))
    | inr ((timer, rest), e) ↦ absurd (omega (arith, laws.size-pop timer q rest e))
  ]
  take_due-IsDue (suc fuel) current_time q enough = elim (Option-cases (heap.pop q)) [
    | inl e ↦ subst (IsDueResult q current_time) (sym (take_due-none fuel current_time q e)) (
        nothing-IsDue q current_time
          (λ p t h. absurd (omega (arith, laws.occurrences-none p t q e, h))))
    | inr ((timer, rest), e) ↦ elim (Bool-cases (ltb current_time timer.execution_time)) [
      | inl late ↦
          subst (IsDueResult q current_time)
            (sym (take_due-late fuel current_time timer q rest e late))
            (nothing-IsDue q current_time (λ p t h. omega (
              arith,
              laws.top-least p t timer q rest e h,
              ltb→lt current_time timer.execution_time late,
            )))
      | inr due ↦
          let behind =
            take_due-IsDue fuel current_time rest (omega (arith, laws.size-pop timer q rest e)) in
          subst (IsDueResult q current_time)
            (sym (take_due-runs fuel current_time timer q rest e due))
            (record {
              kept = λ p t. omega (arith, laws.occurrences-pop p t timer q rest e, behind.kept p t);
              due = (ground arith, behind.due);
              not_due = behind.not_due;
              sorted = (
                take_due-Above fuel current_time timer.execution_time rest
                    (Above-pop timer q rest e),
                behind.sorted,
              );
            })
    ]
  ]

  -- The timers that a frame takes out are those that are due, each as often as it was there, in the
  -- order of their times, and the queue keeps the others, whose times are later. The fuel, which
  -- is the size of the queue, is enough.
  pub take_due-due :
      (current_time : ℕ) (q : heap.Queue)
      → IsDueResult q current_time (take_due heap (heap.size q) current_time q)
  take_due-due current_time q = take_due-IsDue (heap.size q) current_time q (omega arith)
