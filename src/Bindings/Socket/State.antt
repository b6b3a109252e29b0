-- ===== src/Bindings/Socket/State.antt =====
-- src/playground/bindings/modules/socket/socket.cc and socket.h: the state of a socket, and the
-- promises that it is given. An engine calls each callback of `Open`, `Write` and `Close` later, in
-- an order of its own; which error code stands for a time-out is a parameter.
use playgroundjs_plugin.Common.{
  none, ℕ, List, [], Bool, ◌++◌, if◌then◌else◌, get_elem?, suc, ◌==◌, not, ◌∷◌, true, false, zero,
  some,
}

-- `Socket::State`
pub data SocketState : Type 0 where
  connecting connected disconnecting disconnected : SocketState

-- A callback that the engine holds, bound to a promise, which is known by a number.
pub data EngineCallback : Type 0 where
  connect_callback write_callback close_callback : (promise : ℕ) → EngineCallback

-- What the observer is told, with the error code or the bytes.
pub data Observation : Type 0 where
  observed_error : (code : ℕ) → Observation
  observed_close : Observation
  observed_message : (data_bytes : List ℕ) → Observation

-- `Socket`, with what it does to the world: the callbacks that its engine holds, whether the engine
-- reads, the promises resolved, the exceptions thrown and what the observer has been told.
pub record Socket : Type 0 where
  pub state : SocketState
  pub pending : List EngineCallback
  pub reads : ℕ
  pub runtime_alive : Bool
  pub resolved : List (ℕ × Bool)
  pub exceptions : ℕ
  pub observed : List Observation

-- `ResolvePromise`
unfoldable pub resolve_promise : ℕ → Bool → Socket → Socket
resolve_promise promise success s =
    if s.runtime_alive then record s { resolved = s.resolved ++ ((promise, success) ∷ []) } else s

abbrev pub throw_exception : Socket → Socket
throw_exception s = record s { exceptions = suc s.exceptions }

abbrev pub observe : Observation → Socket → Socket
observe o s = record s { observed = s.observed ++ (o ∷ []) }

-- `Open`
unfoldable pub open_socket : ℕ → Socket → Socket
open_socket promise s = elim s.state [
  | disconnected ↦ record s {
    state = connecting;
    pending = s.pending ++ (connect_callback promise ∷ []);
  }
  | _ ↦ throw_exception s
]

-- `Write`
unfoldable pub write : ℕ → Socket → Socket
write promise s = elim s.state [
  | connected ↦ record s { pending = s.pending ++ (write_callback promise ∷ []) }
  | _ ↦ throw_exception s
]

-- `Close`
unfoldable pub close : ℕ → Socket → Socket
close promise s = elim s.state [
  | disconnected ↦ throw_exception s
  | _ ↦ record s { state = disconnecting; pending = s.pending ++ (close_callback promise ∷ []) }
]

-- `OnConnect`, for an error code that is 0 for none.
unfoldable pub on_connect : ℕ → ℕ → ℕ → Socket → Socket
on_connect timed_out error_code promise s =
    if not (error_code == 0)
    then (let down = record s { state = disconnected } in
        let told =
          if not (error_code == timed_out)
          then observe (observed_error error_code) down
          else down in
        resolve_promise promise false told)
    else resolve_promise promise true (record s { state = connected; reads = suc s.reads })

-- `OnWrite`
unfoldable pub on_write : ℕ → ℕ → Socket → Socket
on_write error_code promise s =
    let answered = resolve_promise promise (error_code == 0) s in
    if not (error_code == 0) then observe (observed_error error_code) answered else answered

-- `OnClose`, which leaves the promise alone.
unfoldable pub on_close : ℕ → Socket → Socket
on_close promise s = observe observed_close (record s { state = disconnected })

-- `OnRead` and `OnError`
unfoldable pub on_read : List ℕ → Socket → Socket
on_read data_bytes s = observe (observed_message data_bytes) s

unfoldable pub on_error : ℕ → Socket → Socket
on_error error_code s = observe (observed_error error_code) s

-- What can happen to a socket: a call, an answer to the callback at a place among those pending,
-- after which the engine may keep the callback and call it again, as `TcpSocket::Open` does after a
-- time-out, a read, or a failure to read.
pub data SocketEvent : Type 0 where
  call_open call_write call_close : (promise : ℕ) → SocketEvent
  answer : (place error_code : ℕ) (kept : Bool) → SocketEvent
  data_read : (data_bytes : List ℕ) → SocketEvent
  read_failed : (error_code : ℕ) → SocketEvent

unfoldable pub remove_at : List EngineCallback → ℕ → List EngineCallback
remove_at [] i = []
remove_at (c ∷ cs) zero = cs
remove_at (c ∷ cs) (suc i) = c ∷ remove_at cs i

-- The engine calls a callback.
unfoldable pub call_back : ℕ → ℕ → EngineCallback → Socket → Socket
call_back timed_out error_code (connect_callback promise) s =
    on_connect timed_out error_code promise s
call_back timed_out error_code (write_callback promise) s = on_write error_code promise s
call_back timed_out error_code (close_callback promise) s = on_close promise s

-- What the engine holds after it has called the callback at a place.
unfoldable pub still_pending : ℕ → Bool → List EngineCallback → List EngineCallback
still_pending place kept pending = if kept then pending else remove_at pending place

unfoldable pub answer_at : ℕ → ℕ → ℕ → Bool → Socket → Socket
answer_at timed_out place error_code kept s = elim (get_elem? s.pending place) [
  | none ↦ s
  | some callback ↦
      call_back timed_out error_code callback
        (record s { pending = still_pending place kept s.pending })
]

unfoldable pub handle : ℕ → SocketEvent → Socket → Socket
handle timed_out (call_open promise) s = open_socket promise s
handle timed_out (call_write promise) s = write promise s
handle timed_out (call_close promise) s = close promise s
handle timed_out (answer place error_code kept) s = answer_at timed_out place error_code kept s
handle timed_out (data_read data_bytes) s = on_read data_bytes s
handle timed_out (read_failed error_code) s = on_error error_code s

unfoldable pub handle_all : ℕ → List SocketEvent → Socket → Socket
handle_all timed_out [] s = s
handle_all timed_out (e ∷ events) s = handle_all timed_out events (handle timed_out e s)

-- A socket as it is made.
abbrev pub new_socket : Socket
new_socket = record {
  state = disconnected;
  pending = [];
  reads = 0;
  runtime_alive = true;
  resolved = [];
  exceptions = 0;
  observed = [];
}
