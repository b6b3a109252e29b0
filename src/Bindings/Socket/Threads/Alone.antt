-- ===== src/Bindings/Socket/Threads/Alone.antt =====
-- The writes of an engine whose threads do not come into each other's way.
use playgroundjs_plugin.Bindings.Socket.Fifo.{
  outstanding, IsPaced, callbacks_held, callbacks_called, answered, handle_writes-order,
  completions, handle_writes-answered,
}
use playgroundjs_plugin.Bindings.Socket.Threads.{
  EngineThreads, ThreadEvent, submit, complete_at, rested, step, submits, remove_write, main_steps,
  completes, background_steps, take_turns, take_turn,
}
use playgroundjs_plugin.Bindings.Socket.WriteQueue.{
  write, on_write, handle_write, WriteEvent, WriteEngine, handle_writes, submit_write, idle_engine,
  complete_write, complete, WriteCall, Completion,
}
use playgroundjs_plugin.Common.{
  [], List, ℕ, ◌≡◌, ◌∷◌, ◌++◌, ◌≤◌, ◌∙◌, ap, length, map, Bool-cases, inl, sym, inr, subst, refl,
  Bool,
}

-- The events of a call of `Write`, and of a completion, whose handler runs from its beginning to its
-- end before anything else happens.
abbrev pub alone : WriteEvent → List ThreadEvent
alone (submit_write call) = submits call ∷ main_steps ∷ main_steps ∷ main_steps ∷ []
alone (complete_write error_code bytes) =
    completes 0 error_code bytes
    ∷ background_steps
    ∷ background_steps
    ∷ background_steps
    ∷ background_steps
    ∷ background_steps
    ∷ background_steps
    ∷ []

abbrev pub all_alone : List WriteEvent → List ThreadEvent
all_alone [] = []
all_alone (event ∷ events) = alone event ++ all_alone events

take_turns-append :
    (first second : List ThreadEvent) (t : EngineThreads)
    → take_turns (first ++ second) t ≡ take_turns second (take_turns first t)
unfolding take_turns
take_turns-append [] second t = refl
take_turns-append (event ∷ first) second t = take_turns-append first second (take_turn event t)

-- A handler that runs alone does what the engine does in one step.
submit-alone :
    (call : WriteCall) (e : WriteEngine)
    → take_turns (alone (submit_write call)) (rested e) ≡ rested (write call e)
unfolding take_turns take_turn submit step write
submit-alone call e = elim (Bool-cases e.active_write) [
  | inl active ↦ rw (active, step, write) refl
  | inr inactive ↦ rw (inactive, step, write) refl
]

complete-fields :
    (error_code bytes : ℕ) (active : Bool) (queue in_flight : List WriteCall)
    (posted : List Completion)
    → let e : WriteEngine = record {
      active_write = active;
      write_queue = queue;
      in_flight = in_flight;
      posted = posted;
    } in
      take_turns (alone (complete_write error_code bytes)) (rested e)
      ≡ rested (complete error_code bytes e)
unfolding take_turns take_turn complete_at remove_write step complete on_write write
complete-fields error_code bytes active queue [] posted = refl
complete-fields error_code bytes active [] (c ∷ cs) posted = refl
complete-fields error_code bytes active (d ∷ queue) (c ∷ cs) posted = refl

complete-alone :
    (error_code bytes : ℕ) (e : WriteEngine)
    → take_turns (alone (complete_write error_code bytes)) (rested e)
      ≡ rested (complete error_code bytes e)
complete-alone error_code bytes e =
    complete-fields error_code bytes e.active_write e.write_queue e.in_flight e.posted

alone-handle_write :
    (event : WriteEvent) (e : WriteEngine)
    → take_turns (alone event) (rested e) ≡ rested (handle_write event e)
unfolding handle_write
alone-handle_write (submit_write call) e = submit-alone call e
alone-handle_write (complete_write error_code bytes) e = complete-alone error_code bytes e

all_alone-handle_writes :
    (events : List WriteEvent) (e : WriteEngine)
    → take_turns (all_alone events) (rested e) ≡ rested (handle_writes events e)
unfolding take_turns handle_writes
all_alone-handle_writes [] e = refl
all_alone-handle_writes (event ∷ events) e =
    take_turns-append (alone event) (all_alone events) (rested e)
    ∙ ap (take_turns (all_alone events)) (alone-handle_write event e)
    ∙ all_alone-handle_writes events (handle_write event e)

-- The engine after events whose handlers run one after another, the threads at rest.
abbrev pub engine_after : List WriteEvent → EngineThreads
engine_after events = take_turns (all_alone events) (rested idle_engine)

-- As long as no handler of one thread begins before that of the other has ended, whatever the order
-- in which calls and completions come: both threads are at rest again, never more than one write is
-- in flight, and the callbacks answered, those in flight and those waiting, in this order, are those
-- of the calls in the order of the calls.
pub engine_after-order :
    (events : List WriteEvent)
    → (engine_after events ≡ rested (engine_after events).engine)
      × IsPaced (engine_after events).engine
      × (callbacks_held (engine_after events).engine ≡ callbacks_called events)
engine_after-order events =
    let same = all_alone-handle_writes events idle_engine in
    let order = handle_writes-order events in
    (
      same ∙ ap (λ (t : EngineThreads). rested t.engine) (sym same),
      subst IsPaced (sym (ap (λ (t : EngineThreads). t.engine) same)) order.0,
      ap (λ (t : EngineThreads). callbacks_held t.engine) same ∙ order.1,
    )

-- As long as no handler of one thread begins before that of the other has ended: once as many writes
-- have completed as were outstanding, with whatever results, every call has been answered, exactly
-- once and in the order of the calls.
pub engine_after-answered :
    (events : List WriteEvent) (results : List (ℕ × ℕ))
    → outstanding (engine_after events).engine ≤ length results
    → map answered
        (take_turns (all_alone (completions results)) (engine_after events)).engine.posted
      ≡ callbacks_called events
engine_after-answered events results enough =
    let same = all_alone-handle_writes events idle_engine in
    ap
      (λ (t : EngineThreads).
        map answered (take_turns (all_alone (completions results)) t).engine.posted)
      same
    ∙ ap (λ (t : EngineThreads). map answered t.engine.posted)
        (all_alone-handle_writes (completions results) (handle_writes events idle_engine))
    ∙ handle_writes-answered events results
        (subst (λ (t : EngineThreads). outstanding t.engine ≤ length results) same enough)
