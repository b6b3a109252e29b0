-- ===== src/Bindings/Socket/Threads/Conserved.antt =====
-- However the two threads of an engine interleave, no write is lost or answered twice.
use playgroundjs_plugin.Bindings.Socket.Fifo.{answered, callback_of}
use playgroundjs_plugin.Bindings.Socket.Promises.{count, count-append}
use playgroundjs_plugin.Bindings.Socket.WriteQueue.{WriteCall, WriteEngine, idle_engine}
use playgroundjs_plugin.Bindings.Socket.Threads.{
  Thread, step, submit, remove_write, EngineThreads, ThreadEvent, complete_at, rested, at_test,
  submits, at_push, at_rest, completes, at_flag, at_start, at_post, at_clear, at_take, take_turn,
  take_turns, main_steps, background_steps,
}
use playgroundjs_plugin.Common.{
  ℕ, List, [], map, ◌+◌, ◌∷◌, ◌≡◌, get_elem?, Bool-cases, Option-cases, some, arith, ◌++◌, inl, ap,
  ◌∙◌, inr, map-append, some_absurd, some_inj, suc, zero, refl,
}

-- The callbacks of the writes that a thread has in its hands.
abbrev pub in_hands : Thread → List ℕ
in_hands at_rest = []
in_hands (at_test call) = call.write_callback ∷ []
in_hands (at_push call) = call.write_callback ∷ []
in_hands (at_flag call) = call.write_callback ∷ []
in_hands (at_start call) = call.write_callback ∷ []
in_hands (at_post completion) = completion.write_callback ∷ []
in_hands at_clear = []
in_hands at_take = []

-- How often a callback is with the engine: answered, in flight, or waiting.
abbrev with_engine : ℕ → WriteEngine → ℕ
with_engine p e =
    count p (map answered e.posted)
    + (count p (map callback_of e.in_flight) + count p (map callback_of e.write_queue))

count-map_snoc {ℓ} :
    {A : Type ℓ} (p : ℕ) (f : A → ℕ) (xs : List A) (x : A)
    → count p (map f (xs ++ (x ∷ []))) ≡ count p (map f xs) + count p (f x ∷ [])
count-map_snoc p f xs x =
    ap (count p) (map-append f xs (x ∷ [])) ∙ count-append p (map f xs) (f x ∷ [])

count-cons : (p x : ℕ) (xs : List ℕ) → count p (x ∷ xs) ≡ count p (x ∷ []) + count p xs
count-cons p x xs = count-append p (x ∷ []) xs

-- A step moves a write, or leaves all where they are.
step-conserved :
    (p : ℕ) (t : Thread) (e : WriteEngine)
    → count p (in_hands (step t e).0) + with_engine p (step t e).1
      ≡ count p (in_hands t) + with_engine p e
unfolding step
step-conserved p at_rest e = refl
step-conserved p (at_test call) e = elim (Bool-cases e.active_write) [
  | inl active ↦ rw (active, step) refl
  | inr inactive ↦ rw (inactive, step) refl
]
step-conserved p (at_push call) e = omega (arith, count-map_snoc p callback_of e.write_queue call)
step-conserved p (at_flag call) e = refl
step-conserved p (at_start call) e = omega (arith, count-map_snoc p callback_of e.in_flight call)
step-conserved p (at_post completion) e =
    omega (arith, count-map_snoc p answered e.posted completion)
step-conserved p at_clear e = refl
step-conserved p at_take e = by_queue e.write_queue refl
  where
    by_queue :
        (queue : List WriteCall)
        → e.write_queue ≡ queue
        → count p (in_hands (step at_take e).0) + with_engine p (step at_take e).1
          ≡ count p (in_hands at_take) + with_engine p e
    by_queue [] h = rw (h, step) (omega (arith, ap (λ q. count p (map callback_of q)) h))
    by_queue (call ∷ calls) h =
        rw (h, step)
          (omega (
            arith,
            count-cons p call.write_callback (map callback_of calls),
            ap (λ q. count p (map callback_of q)) h,
          ))

-- How often a callback is anywhere.
abbrev pub conserved : ℕ → EngineThreads → ℕ
conserved p t =
    (count p (map answered t.engine.posted)
      + (count p (map callback_of t.engine.in_flight)
          + count p (map callback_of t.engine.write_queue)))
    + (count p (in_hands t.main_thread) + count p (in_hands t.background_thread))

-- The callback of the call with which an event begins, if the main thread is at rest.
abbrev pub submitted_from : Thread → ThreadEvent → List ℕ
submitted_from thread (submits call) = elim thread [ at_rest ↦ call.write_callback ∷ [] | _ ↦ [] ]
submitted_from thread (completes place error_code bytes) = []
submitted_from thread main_steps = []
submitted_from thread background_steps = []

abbrev pub submitted : List ThreadEvent → EngineThreads → List ℕ
submitted [] t = []
submitted (event ∷ events) t =
    submitted_from t.main_thread event ++ submitted events (take_turn event t)

submit-conserved :
    (p : ℕ) (call : WriteCall) (t : EngineThreads)
    → conserved p (submit call t)
      ≡ conserved p t + count p (submitted_from t.main_thread (submits call))
unfolding submit
submit-conserved p call t = ground arith

remove_write-count :
    (p i : ℕ) (cs : List WriteCall) (c : WriteCall)
    → get_elem? cs i ≡ some c
    → count p (map callback_of cs)
      ≡ count p (c.write_callback ∷ []) + count p (map callback_of (remove_write cs i))
unfolding remove_write
remove_write-count p i [] c e = some_absurd e
remove_write-count p zero (d ∷ cs) c e =
    count-cons p d.write_callback (map callback_of cs)
    ∙ ap (λ (x : WriteCall). count p (x.write_callback ∷ []) + count p (map callback_of cs))
        (some_inj e)
remove_write-count p (suc i) (d ∷ cs) c e = omega (
  arith,
  count-cons p d.write_callback (map callback_of cs),
  count-cons p d.write_callback (map callback_of (remove_write cs i)),
  remove_write-count p i cs c e,
)

begun-conserved :
    (p place error_code bytes : ℕ) (call : WriteCall) (t : EngineThreads)
    → t.background_thread ≡ at_rest
    → get_elem? t.engine.in_flight place ≡ some call
    → conserved p (complete_at place error_code bytes t) ≡ conserved p t
unfolding complete_at
begun-conserved p place error_code bytes call t rest found =
    rw (rest, found, complete_at)
      (omega (
        arith,
        remove_write-count p place t.engine.in_flight call found,
        ap (λ b. count p (in_hands b)) rest,
      ))

complete_at-conserved :
    (p place error_code bytes : ℕ) (t : EngineThreads)
    → conserved p (complete_at place error_code bytes t) ≡ conserved p t
unfolding complete_at
complete_at-conserved p place error_code bytes t =
    elim (Option-cases (get_elem? t.engine.in_flight place)) [
      | inl n ↦ ground (arith, n)
      | inr (call, f) ↦ ground (arith, begun-conserved p place error_code bytes call t, f)
    ]

take_turn-conserved :
    (p : ℕ) (event : ThreadEvent) (t : EngineThreads)
    → conserved p (take_turn event t) ≡ conserved p t + count p (submitted_from t.main_thread event)
unfolding take_turn
take_turn-conserved p (submits call) t = submit-conserved p call t
take_turn-conserved p (completes place error_code bytes) t =
    complete_at-conserved p place error_code bytes t ∙ omega arith
take_turn-conserved p main_steps t = omega (arith, step-conserved p t.main_thread t.engine)
take_turn-conserved p background_steps t =
    omega (arith, step-conserved p t.background_thread t.engine)

take_turns-from :
    (p : ℕ) (events : List ThreadEvent) (t : EngineThreads)
    → conserved p (take_turns events t) ≡ conserved p t + count p (submitted events t)
unfolding take_turns
take_turns-from p [] t = omega arith
take_turns-from p (event ∷ events) t =
    let next = take_turn event t in
    omega (
      arith,
      take_turns-from p events next,
      take_turn-conserved p event t,
      count-append p (submitted_from t.main_thread event) (submitted events next),
    )

-- However calls of `Write`, completions in any order, and the single steps of both threads
-- interleave: the callback of every call of `Write` is answered, in flight, in the queue or in the
-- hands of one of the threads, altogether exactly as often as `Write` was called with it. No write is
-- lost, and none is answered twice.
pub take_turns-conserved :
    (p : ℕ) (events : List ThreadEvent)
    → conserved p (take_turns events (rested idle_engine))
      ≡ count p (submitted events (rested idle_engine))
take_turns-conserved p events = take_turns-from p events (rested idle_engine) ∙ omega arith
