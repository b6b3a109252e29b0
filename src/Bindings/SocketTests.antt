-- ===== src/Bindings/SocketTests.antt =====
-- The writes of an engine on concrete schedules of its threads, and the theorems at inputs that meet
-- their hypotheses.
use playgroundjs_plugin.Bindings.Socket.Promises.{count}
use playgroundjs_plugin.Bindings.Socket.Fifo.{
  answered, IsPaced, completions, callbacks_held, outstanding,
}
use playgroundjs_plugin.Bindings.Socket.WriteQueue.{
  WriteEvent, WriteCall, idle_engine, submit_write, complete_write,
}
use playgroundjs_plugin.Bindings.Socket.Threads.Conserved.{
  conserved, submitted, take_turns-conserved,
}
use playgroundjs_plugin.Bindings.Socket.Threads.Alone.{
  engine_after, all_alone, engine_after-answered, engine_after-order,
}
use playgroundjs_plugin.Bindings.Socket.Threads.{
  take_turns, ThreadEvent, rested, take_turn, submit, complete_at, step, completes, remove_write,
  submits, background_steps, main_steps,
}
use playgroundjs_plugin.Common.{ℕ, map, List, ◌≡◌, [], ◌∷◌, ◌++◌, refl, ◌≤◌, false, arith}

abbrev three_writes : List WriteEvent
three_writes =
    submit_write (record { data_bytes = 1 ∷ 2 ∷ []; write_callback = 10 })
    ∷ submit_write (record { data_bytes = 3 ∷ []; write_callback = 11 })
    ∷ complete_write 0 2
    ∷ submit_write (record { data_bytes = 4 ∷ []; write_callback = 12 })
    ∷ []

engine_after-order_example :
    (engine_after three_writes ≡ rested (engine_after three_writes).engine)
    × IsPaced (engine_after three_writes).engine
    × (callbacks_held (engine_after three_writes).engine ≡ 10 ∷ 11 ∷ 12 ∷ [])
engine_after-order_example = engine_after-order three_writes

two_left : outstanding (engine_after three_writes).engine ≤ 2
unfolding take_turns take_turn submit complete_at step remove_write
two_left = omega arith

engine_after-answered_example :
    map answered
      (take_turns
        (all_alone (completions ((0, 1) ∷ (5, 0) ∷ [])))
        (engine_after three_writes)).engine.posted
    ≡ 10 ∷ 11 ∷ 12 ∷ []
engine_after-answered_example = engine_after-answered three_writes ((0, 1) ∷ (5, 0) ∷ []) two_left

abbrev call_of : ℕ → WriteCall
call_of callback = record { data_bytes = []; write_callback = callback }

-- `Write` of 12 begins when `OnWrite` has cleared the flag, and before it has taken 11 from the
-- queue: 12 is started, and 11 goes back to the queue.
abbrev overtaking : List ThreadEvent
overtaking =
    all_alone (submit_write (call_of 10) ∷ submit_write (call_of 11) ∷ [])
    ++ (completes 0 0 2
        ∷ background_steps
        ∷ background_steps
        ∷ submits (call_of 12)
        ∷ main_steps
        ∷ main_steps
        ∷ background_steps
        ∷ background_steps
        ∷ background_steps
        ∷ main_steps
        ∷ [])

take_turns-conserved_example :
    conserved 11 (take_turns overtaking (rested idle_engine))
    ≡ count 11 (submitted overtaking (rested idle_engine))
take_turns-conserved_example = take_turns-conserved 11 overtaking

overtaken : callbacks_held (take_turns overtaking (rested idle_engine)).engine ≡ 10 ∷ 12 ∷ 11 ∷ []
unfolding take_turns take_turn submit complete_at step remove_write
overtaken = refl

-- `Write` of 11 has found a write active, and pushes when `OnWrite` has found the queue empty: 11
-- waits while no write is active.
left_waiting :
    take_turns
      (all_alone (submit_write (call_of 10) ∷ [])
        ++ (submits (call_of 11)
            ∷ main_steps
            ∷ completes 0 0 2
            ∷ background_steps
            ∷ background_steps
            ∷ background_steps
            ∷ main_steps
            ∷ []))
      (rested idle_engine)
    ≡ rested (record {
      active_write = false;
      write_queue = call_of 11 ∷ [];
      in_flight = [];
      posted = record { write_callback = 10; error_code = 0; bytes_transferred = 2 } ∷ [];
    })
unfolding take_turns take_turn submit complete_at step remove_write
left_waiting = refl
