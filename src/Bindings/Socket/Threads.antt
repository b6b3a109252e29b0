-- ===== src/Bindings/Socket/Threads.antt =====
-- `Write` and `OnWrite` of src/playground/bindings/modules/socket/tcp_socket.cc and web_socket.cc,
-- step by step. `Write` is called on the main thread and `OnWrite` on the thread of the runtime that
-- runs the input and output, without a lock. A step is one access to what both share, and is taken
-- to be atomic: the test and the two changes of `active_write_`, the push to the queue, the start of
-- a write. The test that the queue is not empty, `front` and `pop` are one step, since only the
-- background thread takes from the queue.
pub mod Conserved
pub mod Alone
use playgroundjs_plugin.Bindings.Socket.WriteQueue.{WriteCall, WriteEngine, Completion}
use playgroundjs_plugin.Common.{
  [], ℕ, List, if◌then◌else◌, ◌∷◌, get_elem?, suc, ◌++◌, none, some, true, zero, false,
}

-- What a thread does next, in `Write` from its test on, and in `OnWrite` from its post on.
pub data Thread : Type 0 where
  at_rest : Thread
  at_test at_push at_flag at_start : (call : WriteCall) → Thread
  at_post : (completion : Completion) → Thread
  at_clear at_take : Thread

-- What the threads share, and both threads.
pub record EngineThreads : Type 0 where
  pub engine : WriteEngine
  pub main_thread : Thread
  pub background_thread : Thread

-- One step of a thread.
unfoldable pub step : Thread → WriteEngine → Thread × WriteEngine
step at_rest e = (at_rest, e)
step (at_test call) e = if e.active_write then (at_push call, e) else (at_flag call, e)
step (at_push call) e = (at_rest, record e { write_queue = e.write_queue ++ (call ∷ []) })
step (at_flag call) e = (at_start call, record e { active_write = true })
step (at_start call) e = (at_rest, record e { in_flight = e.in_flight ++ (call ∷ []) })
step (at_post completion) e = (at_clear, record e { posted = e.posted ++ (completion ∷ []) })
step at_clear e = (at_take, record e { active_write = false })
step at_take e = elim e.write_queue [
  | [] ↦ (at_rest, e)
  | call ∷ calls ↦ (at_test call, record e { write_queue = calls })
]

-- What can happen next: the main thread calls `Write`, the write at a place among those in flight
-- completes and the background thread calls `OnWrite`, or a thread goes on by a step.
pub data ThreadEvent : Type 0 where
  submits : (call : WriteCall) → ThreadEvent
  completes : (place error_code bytes_transferred : ℕ) → ThreadEvent
  main_steps background_steps : ThreadEvent

unfoldable pub remove_write : List WriteCall → ℕ → List WriteCall
remove_write [] i = []
remove_write (c ∷ cs) zero = cs
remove_write (c ∷ cs) (suc i) = c ∷ remove_write cs i

-- A thread begins what it is called for when it has nothing else to do.
unfoldable pub submit : WriteCall → EngineThreads → EngineThreads
submit call t = elim t.main_thread [ at_rest ↦ record t { main_thread = at_test call } | _ ↦ t ]

unfoldable pub complete_at : ℕ → ℕ → ℕ → EngineThreads → EngineThreads
complete_at place error_code bytes t = elim t.background_thread [
  | at_rest ↦ elim (get_elem? t.engine.in_flight place) [
    | none ↦ t
    | some call ↦ record t {
      engine = record t.engine { in_flight = remove_write t.engine.in_flight place };
      background_thread = at_post (record {
        write_callback = call.write_callback;
        error_code = error_code;
        bytes_transferred = bytes;
      });
    }
  ]
  | _ ↦ t
]

unfoldable pub take_turn : ThreadEvent → EngineThreads → EngineThreads
take_turn (submits call) t = submit call t
take_turn (completes place error_code bytes) t = complete_at place error_code bytes t
take_turn main_steps t =
    let stepped = step t.main_thread t.engine in
    record t { engine = stepped.1; main_thread = stepped.0 }
take_turn background_steps t =
    let stepped = step t.background_thread t.engine in
    record t { engine = stepped.1; background_thread = stepped.0 }

unfoldable pub take_turns : List ThreadEvent → EngineThreads → EngineThreads
take_turns [] t = t
take_turns (event ∷ events) t = take_turns events (take_turn event t)

-- Both threads at rest, with an engine.
abbrev pub rested : WriteEngine → EngineThreads
rested e = record { engine = e; main_thread = at_rest; background_thread = at_rest }
