-- ===== src/Bindings/Socket/Settled.antt =====
-- Which promises a socket of src/playground/bindings/modules/socket/socket.cc resolves.
use playgroundjs_plugin.Common.{
  [], ◌≡◌, true, ◌+◌, arith, refl, Option-cases, List, get_elem?, map, ◌∷◌, inl, ◌∙◌, inr, Bool,
}
use playgroundjs_plugin.Bindings.Socket.Promises.{
  accounted, count, accepted_from, pend-accounted, answer_at-accounted, accepted, promise_of,
  promised, count-append, repeated_from, repeated,
}
use Prim.Native.Nat.{ℕ}
use playgroundjs_plugin.Bindings.Socket.State.{
  Socket, handle, close, write, open_socket, on_read, answer_at, call_back, on_error, on_connect,
  SocketEvent, SocketState, on_write, on_close, resolve_promise, call_write, call_open,
  close_callback, call_close, connect_callback, write_callback, answer, data_read, read_failed,
  EngineCallback, handle_all, new_socket,
}

open-accounted :
    (p promise : ℕ) (s : Socket)
    → accounted p (open_socket promise s)
      ≡ accounted p s + count p (accepted_from s.state (call_open promise))
unfolding open_socket
open-accounted p promise s = by_state s.state refl
  where
    by_state :
        (st : SocketState)
        → s.state ≡ st
        → accounted p (open_socket promise s)
          ≡ accounted p s + count p (accepted_from s.state (call_open promise))
    by_state SocketState.disconnected e =
        rw (e, open_socket) (omega (arith, pend-accounted p (connect_callback promise) s.pending))
    by_state SocketState.connecting e = rw (e, open_socket) (omega arith)
    by_state SocketState.connected e = rw (e, open_socket) (omega arith)
    by_state SocketState.disconnecting e = rw (e, open_socket) (omega arith)

write-accounted :
    (p promise : ℕ) (s : Socket)
    → accounted p (write promise s)
      ≡ accounted p s + count p (accepted_from s.state (call_write promise))
unfolding write
write-accounted p promise s = by_state s.state refl
  where
    by_state :
        (st : SocketState)
        → s.state ≡ st
        → accounted p (write promise s)
          ≡ accounted p s + count p (accepted_from s.state (call_write promise))
    by_state SocketState.connected e =
        rw (e, write) (omega (arith, pend-accounted p (write_callback promise) s.pending))
    by_state SocketState.connecting e = rw (e, write) (omega arith)
    by_state SocketState.disconnected e = rw (e, write) (omega arith)
    by_state SocketState.disconnecting e = rw (e, write) (omega arith)

close-accounted : (p promise : ℕ) (s : Socket) → accounted p (close promise s) ≡ accounted p s
unfolding close
close-accounted p promise s = by_state s.state refl
  where
    by_state : (st : SocketState) → s.state ≡ st → accounted p (close promise s) ≡ accounted p s
    by_state SocketState.disconnected e = rw (e, close) refl
    by_state SocketState.connected e =
        rw (e, close) (omega (arith, pend-accounted p (close_callback promise) s.pending))
    by_state SocketState.connecting e =
        rw (e, close) (omega (arith, pend-accounted p (close_callback promise) s.pending))
    by_state SocketState.disconnecting e =
        rw (e, close) (omega (arith, pend-accounted p (close_callback promise) s.pending))

handle-accounted :
    (timed_out p : ℕ) (e : SocketEvent) (s : Socket)
    → s.runtime_alive ≡ true
    → accounted p (handle timed_out e s)
      ≡ accounted p s + (count p (accepted_from s.state e) + count p (repeated_from s.pending e))
unfolding handle on_read on_error
handle-accounted timed_out p (call_open promise) s alive = omega (arith, open-accounted p promise s)
handle-accounted timed_out p (call_write promise) s alive =
    omega (arith, write-accounted p promise s)
handle-accounted timed_out p (call_close promise) s alive =
    omega (arith, close-accounted p promise s)
handle-accounted timed_out p (answer place error_code kept) s alive =
    omega (arith, answer_at-accounted timed_out place error_code p kept s alive)
handle-accounted timed_out p (data_read data_bytes) s alive = omega arith
handle-accounted timed_out p (read_failed error_code) s alive = omega arith

call_back-alive :
    (timed_out error_code : ℕ) (c : EngineCallback) (s : Socket)
    → (call_back timed_out error_code c s).runtime_alive ≡ s.runtime_alive
unfolding call_back on_connect on_write on_close resolve_promise
call_back-alive timed_out error_code (connect_callback promise) s = ground arith
call_back-alive timed_out error_code (write_callback promise) s = ground arith
call_back-alive timed_out error_code (close_callback promise) s = refl

answer_at-alive :
    (timed_out place error_code : ℕ) (kept : Bool) (s : Socket)
    → (answer_at timed_out place error_code kept s).runtime_alive ≡ s.runtime_alive
unfolding answer_at
answer_at-alive timed_out place error_code kept s =
    elim (Option-cases (get_elem? s.pending place)) [
      | inl n ↦ rw (n, answer_at) refl
      | inr (c, f) ↦ rw (f, answer_at) (call_back-alive timed_out error_code c _)
    ]

handle-alive :
    (timed_out : ℕ) (e : SocketEvent) (s : Socket)
    → (handle timed_out e s).runtime_alive ≡ s.runtime_alive
unfolding handle open_socket write close on_read on_error
handle-alive timed_out (call_open promise) s = ground arith
handle-alive timed_out (call_write promise) s = ground arith
handle-alive timed_out (call_close promise) s = ground arith
handle-alive timed_out (answer place error_code kept) s =
    answer_at-alive timed_out place error_code kept s
handle-alive timed_out (data_read data_bytes) s = refl
handle-alive timed_out (read_failed error_code) s = refl

handle_all-accounted :
    (timed_out p : ℕ) (events : List SocketEvent) (s : Socket)
    → s.runtime_alive ≡ true
    → accounted p (handle_all timed_out events s)
      ≡ accounted p s
        + (count p (accepted timed_out events s) + count p (repeated timed_out events s))
unfolding handle_all
handle_all-accounted timed_out p [] s alive = omega arith
handle_all-accounted timed_out p (e ∷ events) s alive =
    let next = handle timed_out e s in
    omega (
      arith,
      handle_all-accounted timed_out p events next (handle-alive timed_out e s ∙ alive),
      handle-accounted timed_out p e s alive,
      count-append p (accepted_from s.state e) (accepted timed_out events next),
      count-append p (repeated_from s.pending e) (repeated timed_out events next),
    )

-- Whatever happens to a socket while its runtime lives: a promise has been passed to
-- ResolvePromise, or is still with the engine to be, as often as it was given to `Open` while
-- disconnected or to `Write` while connected, and once more for each time that the engine called its
-- callback without letting it go. A promise that was refused, or was given to `Close` only, is never
-- passed to it.
pub handle_all-settled :
    (timed_out p : ℕ) (events : List SocketEvent)
    → count p (map promise_of (handle_all timed_out events new_socket).resolved)
        + count p (promised (handle_all timed_out events new_socket).pending)
      ≡ count p (accepted timed_out events new_socket)
        + count p (repeated timed_out events new_socket)
handle_all-settled timed_out p events =
    omega (arith, handle_all-accounted timed_out p events new_socket refl)
