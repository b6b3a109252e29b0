-- ===== src/Bindings/Socket/WriteQueue.antt =====
-- What an engine of src/playground/bindings/modules/socket/tcp_socket.cc and web_socket.cc, which
-- are the same there, keeps for its writes; and, as an abstract engine, what `Write` and `OnWrite` do
-- to it when each runs as a whole. The handlers step by step are in Threads.
use playgroundjs_plugin.Common.{ℕ, List, Bool, false, ◌++◌, if◌then◌else◌, [], ◌∷◌, true}

-- A call of `Write`: its bytes, and its callback, known by a number.
pub record WriteCall : Type 0 where
  pub data_bytes : List ℕ
  pub write_callback : ℕ

-- `WriteCallback` bound to an error code, 0 for none, and the number of bytes transferred.
pub record Completion : Type 0 where
  pub write_callback : ℕ
  pub error_code : ℕ
  pub bytes_transferred : ℕ

-- The engine, with the asynchronous writes that have been started and have not completed, and what
-- `CallOnMainThread` has posted.
pub record WriteEngine : Type 0 where
  pub active_write : Bool
  pub write_queue : List WriteCall
  pub in_flight : List WriteCall
  pub posted : List Completion

-- `Write`
unfoldable pub write : WriteCall → WriteEngine → WriteEngine
write call e =
    if e.active_write
    then record e { write_queue = e.write_queue ++ (call ∷ []) }
    else record e { active_write = true; in_flight = e.in_flight ++ (call ∷ []) }

-- `OnWrite`
unfoldable pub on_write : Completion → WriteEngine → WriteEngine
on_write completion e =
    let done = record e { posted = e.posted ++ (completion ∷ []); active_write = false } in
    elim done.write_queue [
      | [] ↦ done
      | call ∷ calls ↦ write call (record done { write_queue = calls })
    ]

-- What can happen: a call of `Write`, or the completion of the oldest write in flight.
pub data WriteEvent : Type 0 where
  submit_write : (call : WriteCall) → WriteEvent
  complete_write : (error_code bytes_transferred : ℕ) → WriteEvent

unfoldable pub complete : ℕ → ℕ → WriteEngine → WriteEngine
complete error_code bytes e = elim e.in_flight [
  | [] ↦ e
  | call ∷ calls ↦
      on_write
        (record {
          write_callback = call.write_callback;
          error_code = error_code;
          bytes_transferred = bytes;
        })
        (record e { in_flight = calls })
]

unfoldable pub handle_write : WriteEvent → WriteEngine → WriteEngine
handle_write (submit_write call) e = write call e
handle_write (complete_write error_code bytes) e = complete error_code bytes e

unfoldable pub handle_writes : List WriteEvent → WriteEngine → WriteEngine
handle_writes [] e = e
handle_writes (event ∷ events) e = handle_writes events (handle_write event e)

-- The engine as it is made.
abbrev pub idle_engine : WriteEngine
idle_engine = record { active_write = false; write_queue = []; in_flight = []; posted = [] }
