-- ===== src/Bindings/Timers.antt =====
-- src/playground/bindings/timer_queue.cc: the promises that wait for a time. `std::priority_queue`
-- is a record of operations and laws. Times are whole milliseconds.
pub mod Due
pub mod SortedQueue
use playgroundjs_plugin.Common.{
  ℕ, List, Option, ◌+◌, [], ◌≡◌, ◌∷◌, if◌then◌else◌, ◌==◌, suc, some, none, ◌&&◌, ltb, ◌<◌, ◌≤◌,
  zero,
}
use playgroundjs_plugin.Bindings.Promise.{Promise, settle, resolved}

-- `TimerStorage`, the promise known by a number.
pub record TimerStorage : Type 0 where
  pub promise : ℕ
  pub execution_time : ℕ

-- `pop` gives what `top` gives, and the queue without it.
pub record PriorityQueue : Type 1 where
  pub Queue : Type 0
  pub empty : Queue
  pub push : TimerStorage → Queue → Queue
  pub pop : Queue → Option (TimerStorage × Queue)
  pub size : Queue → ℕ

-- 1 if the timer is the one for this promise at this time.
abbrev pub one_if : ℕ → ℕ → TimerStorage → ℕ
one_if promise time timer =
    if timer.promise == promise && timer.execution_time == time then 1 else 0

-- What the documentation of the queue promises, with its order by `operator<`: it holds what was
-- pushed and not popped, and the top is one with the least time.
pub record QueueLaws (heap : PriorityQueue) : Type 1 where
  pub occurrences : ℕ → ℕ → heap.Queue → ℕ
  pub occurrences-empty : (p t : ℕ) → occurrences p t heap.empty ≡ 0
  pub occurrences-push :
      (p t : ℕ) (timer : TimerStorage) (q : heap.Queue)
      → occurrences p t (heap.push timer q) ≡ one_if p t timer + occurrences p t q
  pub occurrences-pop :
      (p t : ℕ) (timer : TimerStorage) (q rest : heap.Queue)
      → heap.pop q ≡ some (timer, rest)
      → occurrences p t q ≡ one_if p t timer + occurrences p t rest
  pub occurrences-none : (p t : ℕ) (q : heap.Queue) → heap.pop q ≡ none → occurrences p t q ≡ 0
  pub top-least :
      (p t : ℕ) (timer : TimerStorage) (q rest : heap.Queue)
      → heap.pop q ≡ some (timer, rest)
      → 0 < occurrences p t q
      → timer.execution_time ≤ t
  pub size-pop :
      (timer : TimerStorage) (q rest : heap.Queue)
      → heap.pop q ≡ some (timer, rest)
      → heap.size q ≡ suc (heap.size rest)

module _ (heap : PriorityQueue) where
  -- `Add`, at the present time.
  unfoldable pub add_timer : ℕ → ℕ → ℕ → heap.Queue → heap.Queue
  add_timer now promise time q =
      heap.push (record { promise = promise; execution_time = now + time }) q

  -- The loop of `Run` that takes out what is due, on fuel.
  unfoldable pub take_due : ℕ → ℕ → heap.Queue → List TimerStorage × heap.Queue
  take_due zero current_time q = ([], q)
  take_due (suc fuel) current_time q = elim (heap.pop q) [
    | none ↦ ([], q)
    | some (timer, popped) ↦
        let rest = take_due fuel current_time popped in
        if ltb current_time timer.execution_time then ([], q) else (timer ∷ rest.0, rest.1)
  ]

  -- The loop of `Run` that resolves the promises, with `null`, which is 0 here.
  unfoldable pub resolve_due : List TimerStorage → (ℕ → Promise) → ℕ → Promise
  resolve_due [] promises = promises
  resolve_due (timer ∷ timers) promises =
      resolve_due timers
        (λ id. if id == timer.promise then (settle (resolved 0) (promises id)).1 else promises id)

  -- `Run`
  unfoldable pub run_timers : ℕ → heap.Queue → (ℕ → Promise) → heap.Queue × (ℕ → Promise)
  run_timers current_time q promises =
      let due = take_due (heap.size q) current_time q in (due.1, resolve_due due.0 promises)
