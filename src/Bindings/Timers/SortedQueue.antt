-- ===== src/Bindings/Timers/SortedQueue.antt =====
-- A priority queue that satisfies the laws: a list in the order of the times.
use playgroundjs_plugin.Common.{
  [], ℕ, List, Option, ◌∷◌, All, ◌≡◌, ◌≤◌, Bool-cases, none, ◌<◌, ◌+◌, if◌then◌else◌, leb, some,
  arith, inl, inr, All-imp, refl, some_absurd, length, suc, ap, subst, sym, some_inj,
}
use playgroundjs_plugin.Bindings.Timers.{TimerStorage, PriorityQueue, QueueLaws, one_if}
use playgroundjs_plugin.Bindings.Timers.Due.{count_timers}

unfoldable pub insert_sorted : TimerStorage → List TimerStorage → List TimerStorage
insert_sorted timer [] = timer ∷ []
insert_sorted timer (other ∷ timers) =
    let behind = insert_sorted timer timers in
    if leb timer.execution_time other.execution_time then timer ∷ other ∷ timers else other ∷ behind

abbrev pub IsOrdered : List TimerStorage → Type 0
IsOrdered [] = Unit
IsOrdered (timer ∷ timers) =
    All (λ later. timer.execution_time ≤ later.execution_time) timers × IsOrdered timers

All-insert :
    (bound : ℕ) (timer : TimerStorage) (timers : List TimerStorage)
    → bound ≤ timer.execution_time
    → All (λ later. bound ≤ later.execution_time) timers
    → All (λ later. bound ≤ later.execution_time) (insert_sorted timer timers)
unfolding insert_sorted
All-insert bound timer [] h all = (h, tt)
All-insert bound timer (other ∷ timers) h all =
    elim (Bool-cases (leb timer.execution_time other.execution_time)) [
      | inl before ↦ rw before (h, all)
      | inr later ↦ rw later (all.0, All-insert bound timer timers h all.1)
    ]

pub insert_sorted-IsOrdered :
    (timer : TimerStorage) (timers : List TimerStorage)
    → IsOrdered timers
    → IsOrdered (insert_sorted timer timers)
unfolding insert_sorted
insert_sorted-IsOrdered timer [] h = (tt, tt)
insert_sorted-IsOrdered timer (other ∷ timers) h =
    elim (Bool-cases (leb timer.execution_time other.execution_time)) [
      | inl before ↦
          rw before ((ground arith, All-imp (λ later le. ground (arith, le, before)) timers h.0), h)
      | inr later ↦ rw later (
        All-insert other.execution_time timer timers (ground arith) h.0,
        insert_sorted-IsOrdered timer timers h.1,
      )
    ]

count-insert :
    (p t : ℕ) (timer : TimerStorage) (timers : List TimerStorage)
    → count_timers p t (insert_sorted timer timers) ≡ one_if p t timer + count_timers p t timers
unfolding insert_sorted
count-insert p t timer [] = refl
count-insert p t timer (other ∷ timers) =
    elim (Bool-cases (leb timer.execution_time other.execution_time)) [
      | inl before ↦ rw before refl
      | inr later ↦ rw later (omega (arith, count-insert p t timer timers))
    ]

count-below :
    (p t bound : ℕ) (timers : List TimerStorage)
    → All (λ later. bound ≤ later.execution_time) timers
    → 0 < count_timers p t timers
    → bound ≤ t
count-below p t bound [] all h = absurd (omega arith)
count-below p t bound (timer ∷ timers) all h =
    ground (arith, all.0, count-below p t bound timers all.1, h)

abbrev pub Ordered : Type 0
Ordered = (timers : List TimerStorage) × IsOrdered timers

unfoldable pub pop_sorted : Ordered → Option (TimerStorage × Ordered)
pop_sorted ([], h) = none
pop_sorted (timer ∷ timers, h) = some (timer, (timers, h.1))

occurrences-pop_sorted :
    (p t : ℕ) (timer : TimerStorage) (q rest : Ordered)
    → pop_sorted q ≡ some (timer, rest)
    → count_timers p t q.0 ≡ one_if p t timer + count_timers p t rest.0
unfolding pop_sorted
occurrences-pop_sorted p t timer ([], h) rest e = some_absurd e
occurrences-pop_sorted p t timer (first ∷ timers, h) rest e =
    ap (λ r. one_if p t r.0 + count_timers p t r.1.0) (some_inj e)

none-pop_sorted : (p t : ℕ) (q : Ordered) → pop_sorted q ≡ none → count_timers p t q.0 ≡ 0
unfolding pop_sorted
none-pop_sorted p t ([], h) e = refl
none-pop_sorted p t (first ∷ timers, h) e = some_absurd (sym e)

top-pop_sorted :
    (p t : ℕ) (timer : TimerStorage) (q rest : Ordered)
    → pop_sorted q ≡ some (timer, rest)
    → 0 < count_timers p t q.0
    → timer.execution_time ≤ t
unfolding pop_sorted
top-pop_sorted p t timer ([], h) rest e held = some_absurd e
top-pop_sorted p t timer (first ∷ timers, h) rest e held =
    subst (λ r. r.0.execution_time ≤ t) (some_inj e)
      (count-below p t first.execution_time (first ∷ timers) (omega arith, h.0) held)

size-pop_sorted :
    (timer : TimerStorage) (q rest : Ordered)
    → pop_sorted q ≡ some (timer, rest)
    → length q.0 ≡ suc (length rest.0)
unfolding pop_sorted
size-pop_sorted timer ([], h) rest e = some_absurd e
size-pop_sorted timer (first ∷ timers, h) rest e = ap (λ r. suc (length r.1.0)) (some_inj e)

abbrev pub sorted_queue : PriorityQueue
sorted_queue = record {
  Queue = Ordered;
  empty = ([], tt);
  push = λ timer q. (insert_sorted timer q.0, insert_sorted-IsOrdered timer q.0 q.1);
  pop = pop_sorted;
  size = λ q. length q.0;
}

pub sorted_queue-laws : QueueLaws sorted_queue
sorted_queue-laws = record {
  occurrences = λ p t q. count_timers p t q.0;
  occurrences-empty = λ p t. refl;
  occurrences-push = λ p t timer q. count-insert p t timer q.0;
  occurrences-pop = occurrences-pop_sorted;
  occurrences-none = none-pop_sorted;
  top-least = top-pop_sorted;
  size-pop = size-pop_sorted;
}
