-- ===== src/Bindings/Socket/Fifo.antt =====
-- The writes of the abstract engine for src/playground/bindings/modules/socket are made one at a
-- time, and answered in the order of the calls.
use playgroundjs_plugin.Common.{
  List, map, ◌≡◌, ◌∷◌, true, ◌++◌, false, [], ap, refl, append_assoc, append-nil, length, sym, ◌-◌,
  arith, ◌+◌, ◌∙◌, ◌≤◌, map-append,
}
use Prim.Native.Nat.{ℕ}
use playgroundjs_plugin.Bindings.Socket.WriteQueue.{
  WriteEvent, WriteEngine, Completion, WriteCall, write, submit_write, complete_write, complete,
  on_write, handle_writes, idle_engine, handle_write,
}

-- The calls among the events, in order.
abbrev pub callbacks_called : List WriteEvent → List ℕ
callbacks_called [] = []
callbacks_called (submit_write call ∷ events) = call.write_callback ∷ callbacks_called events
callbacks_called (complete_write error_code bytes ∷ events) = callbacks_called events

abbrev pub callback_of : WriteCall → ℕ
callback_of call = call.write_callback

abbrev pub answered : Completion → ℕ
answered completion = completion.write_callback

-- The callbacks answered, then those of the writes in flight, then those that wait.
abbrev pub callbacks_held : WriteEngine → List ℕ
callbacks_held e =
    map answered e.posted ++ (map callback_of e.in_flight ++ map callback_of e.write_queue)

-- An engine with nothing to do, and one that has a write in flight.
abbrev pub resting : List Completion → WriteEngine
resting posted = record { active_write = false; write_queue = []; in_flight = []; posted = posted }

abbrev pub writing : WriteCall → List WriteCall → List Completion → WriteEngine
writing call queue posted = record {
  active_write = true;
  write_queue = queue;
  in_flight = call ∷ [];
  posted = posted;
}

-- At most one write is in flight, exactly when the flag says so, and none waits while none is.
pub data IsPaced : WriteEngine → Type 0 where
  is_resting : (posted : List Completion) → IsPaced (resting posted)
  is_writing :
      (call : WriteCall) (queue : List WriteCall) (posted : List Completion)
      → IsPaced (writing call queue posted)

write-held :
    (call : WriteCall) (e : WriteEngine)
    → IsPaced e
    → IsPaced (write call e)
      × (callbacks_held (write call e) ≡ callbacks_held e ++ (call.write_callback ∷ []))
unfolding write
write-held call e (is_resting posted) = (is_writing call [] posted, simp append_assoc)
write-held call e (is_writing other queue posted) =
    (is_writing other (queue ++ (call ∷ [])) posted, simp (append_assoc, map-append))

-- What completes is the write in flight, and the oldest that waits goes next.
complete-held :
    (error_code bytes : ℕ) (e : WriteEngine)
    → IsPaced e
    → IsPaced (complete error_code bytes e)
      × (callbacks_held (complete error_code bytes e) ≡ callbacks_held e)
unfolding complete on_write write
complete-held error_code bytes e (is_resting posted) = (is_resting posted, refl)
complete-held error_code bytes e (is_writing call [] posted) =
    (is_resting _, simp (append_assoc, map-append, append-nil))
complete-held error_code bytes e (is_writing call (next ∷ queue) posted) =
    (is_writing next queue _, simp (append_assoc, map-append))

handle_writes-held :
    (events : List WriteEvent) (e : WriteEngine)
    → IsPaced e
    → IsPaced (handle_writes events e)
      × (callbacks_held (handle_writes events e) ≡ callbacks_held e ++ callbacks_called events)
unfolding handle_writes handle_write
handle_writes-held [] e h = (h, sym (append-nil (callbacks_held e)))
handle_writes-held (submit_write call ∷ events) e h =
    let w = write-held call e h in
    let rest = handle_writes-held events (write call e) w.0 in
    (
      rest.0,
      rest.1
          ∙ ap (λ held. held ++ callbacks_called events) w.1
          ∙ append_assoc (callbacks_held e) (call.write_callback ∷ []) (callbacks_called events),
    )
handle_writes-held (complete_write error_code bytes ∷ events) e h =
    let w = complete-held error_code bytes e h in
    let rest = handle_writes-held events (complete error_code bytes e) w.0 in
    (rest.0, rest.1 ∙ ap (λ held. held ++ callbacks_called events) w.1)

-- In the abstract engine, whatever the order in which calls and completions come: never more than one
-- write is in flight,
-- and the callbacks answered, those in flight and those waiting, in this order, are those of the
-- calls in the order of the calls.
pub handle_writes-order :
    (events : List WriteEvent)
    → IsPaced (handle_writes events idle_engine)
      × (callbacks_held (handle_writes events idle_engine) ≡ callbacks_called events)
handle_writes-order events = handle_writes-held events idle_engine (is_resting [])

-- The writes that have not completed.
abbrev pub outstanding : WriteEngine → ℕ
outstanding e = length e.in_flight + length e.write_queue

-- Completions with these results, one after another.
abbrev pub completions : List (ℕ × ℕ) → List WriteEvent
completions [] = []
completions (r ∷ results) = complete_write r.0 r.1 ∷ completions results

complete-outstanding :
    (error_code bytes : ℕ) (e : WriteEngine)
    → IsPaced e
    → outstanding (complete error_code bytes e) ≡ outstanding e - 1
unfolding complete on_write write
complete-outstanding error_code bytes e (is_resting posted) = refl
complete-outstanding error_code bytes e (is_writing call [] posted) = refl
complete-outstanding error_code bytes e (is_writing call (next ∷ queue) posted) = omega arith

none_outstanding :
    (e : WriteEngine) → IsPaced e → outstanding e ≡ 0 → map answered e.posted ≡ callbacks_held e
none_outstanding e (is_resting posted) h = sym (append-nil (map answered posted))
none_outstanding e (is_writing call queue posted) h = absurd (omega arith)

drain-answered :
    (results : List (ℕ × ℕ)) (e : WriteEngine)
    → IsPaced e
    → outstanding e ≤ length results
    → map answered (handle_writes (completions results) e).posted ≡ callbacks_held e
unfolding handle_writes handle_write
drain-answered [] e h few = none_outstanding e h (omega arith)
drain-answered (r ∷ results) e h few =
    let w = complete-held r.0 r.1 e h in
    drain-answered results (complete r.0 r.1 e) w.0
      (omega (arith, complete-outstanding r.0 r.1 e h))
    ∙ w.1

-- In the abstract engine, once as many writes have completed as were outstanding, with whatever
-- results, every call has
-- been answered, exactly once and in the order of the calls.
pub handle_writes-answered :
    (events : List WriteEvent) (results : List (ℕ × ℕ))
    → outstanding (handle_writes events idle_engine) ≤ length results
    → map answered (handle_writes (completions results) (handle_writes events idle_engine)).posted
      ≡ callbacks_called events
handle_writes-answered events results enough =
    let h = handle_writes-order events in
    drain-answered results (handle_writes events idle_engine) h.0 enough ∙ h.1
