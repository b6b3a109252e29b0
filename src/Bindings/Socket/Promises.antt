-- ===== src/Bindings/Socket/Promises.antt =====
-- The promises given to a socket of src/playground/bindings/modules/socket/socket.cc.
use playgroundjs_plugin.Common.{
  List, Bool, ◌∷◌, ◌++◌, map, get_elem?, if◌then◌else◌, ◌≡◌, ◌+◌, [], ◌==◌, ap, some, arith,
  some_absurd, refl, zero, suc, ◌∙◌, true, some_inj, Option-cases, Bool-cases, not, inl, inr, false,
  none,
}
use Prim.Native.Nat.{ℕ, suc}
use playgroundjs_plugin.Bindings.Socket.State.{
  Socket, remove_at, SocketState, SocketEvent, EngineCallback, connect_callback, call_open, handle,
  write_callback, call_write, close_callback, call_close, answer_at, call_back, resolve_promise,
  on_connect, on_write, on_close, answer, data_read, read_failed, still_pending,
}

abbrev pub count : ℕ → List ℕ → ℕ
count p [] = 0
count p (x ∷ xs) = if p == x then suc (count p xs) else count p xs

-- The promises of `Open` and `Write` that the engine still holds.
abbrev pub promised : List EngineCallback → List ℕ
promised [] = []
promised (connect_callback p ∷ cs) = p ∷ promised cs
promised (write_callback p ∷ cs) = p ∷ promised cs
promised (close_callback p ∷ cs) = promised cs

-- The promise that an event hands to the engine from this state, if it is one of `Open` or `Write`
-- and is not refused.
abbrev pub accepted_from : SocketState → SocketEvent → List ℕ
accepted_from state (call_open p) = elim state [ SocketState.disconnected ↦ p ∷ [] | _ ↦ [] ]
accepted_from state (call_write p) = elim state [ SocketState.connected ↦ p ∷ [] | _ ↦ [] ]
accepted_from state (call_close p) = []
accepted_from state (answer place error_code kept) = []
accepted_from state (data_read data_bytes) = []
accepted_from state (read_failed error_code) = []

abbrev pub accepted : ℕ → List SocketEvent → Socket → List ℕ
accepted timed_out [] s = []
accepted timed_out (e ∷ events) s =
    accepted_from s.state e ++ accepted timed_out events (handle timed_out e s)

-- The promise whose callback an event calls while the engine keeps it, to call it again.
abbrev pub repeated_from : List EngineCallback → SocketEvent → List ℕ
repeated_from pending (answer place error_code true) = elim (get_elem? pending place) [
  | none ↦ []
  | some callback ↦ promised (callback ∷ [])
]
repeated_from pending _ = []

abbrev pub repeated : ℕ → List SocketEvent → Socket → List ℕ
repeated timed_out [] s = []
repeated timed_out (e ∷ events) s =
    repeated_from s.pending e ++ repeated timed_out events (handle timed_out e s)

abbrev pub promise_of : ℕ × Bool → ℕ
promise_of r = r.0

-- How often a promise has been resolved, and is still to be.
abbrev pub accounted : ℕ → Socket → ℕ
accounted p s = count p (map promise_of s.resolved) + count p (promised s.pending)

pub count-append : (p : ℕ) (xs ys : List ℕ) → count p (xs ++ ys) ≡ count p xs + count p ys
count-append p [] ys = omega arith
count-append p (x ∷ xs) ys = ground (arith, count-append p xs ys)

promised-append : (xs ys : List EngineCallback) → promised (xs ++ ys) ≡ promised xs ++ promised ys
promised-append [] ys = refl
promised-append (connect_callback p ∷ xs) ys = ap (◌∷◌ p) (promised-append xs ys)
promised-append (write_callback p ∷ xs) ys = ap (◌∷◌ p) (promised-append xs ys)
promised-append (close_callback p ∷ xs) ys = promised-append xs ys

map_promise-append :
    (xs ys : List (ℕ × Bool)) → map promise_of (xs ++ ys) ≡ map promise_of xs ++ map promise_of ys
map_promise-append [] ys = refl
map_promise-append (x ∷ xs) ys = ap (◌∷◌ x.0) (map_promise-append xs ys)

promised-cons :
    (p : ℕ) (c : EngineCallback) (cs : List EngineCallback)
    → count p (promised (c ∷ cs)) ≡ count p (promised (c ∷ [])) + count p (promised cs)
promised-cons p c cs =
    ap (count p) (promised-append (c ∷ []) cs) ∙ count-append p (promised (c ∷ [])) (promised cs)

promised-remove_at :
    (p i : ℕ) (cs : List EngineCallback) (c : EngineCallback)
    → get_elem? cs i ≡ some c
    → count p (promised cs) ≡ count p (promised (c ∷ [])) + count p (promised (remove_at cs i))
unfolding remove_at
promised-remove_at p i [] c e = some_absurd e
promised-remove_at p zero (d ∷ cs) c e =
    promised-cons p d cs
    ∙ ap (λ x. count p (promised (x ∷ [])) + count p (promised cs)) (some_inj e)
promised-remove_at p (suc i) (d ∷ cs) c e =
    omega (
      arith,
      promised-cons p d cs,
      promised-cons p d (remove_at cs i),
      promised-remove_at p i cs c e,
    )

-- Handing a callback to the engine.
pub pend-accounted :
    (p : ℕ) (c : EngineCallback) (cs : List EngineCallback)
    → count p (promised (cs ++ (c ∷ []))) ≡ count p (promised cs) + count p (promised (c ∷ []))
pend-accounted p c cs =
    ap (count p) (promised-append cs (c ∷ [])) ∙ count-append p (promised cs) (promised (c ∷ []))

resolve_promise-accounted :
    (p promise : ℕ) (success : Bool) (s : Socket)
    → s.runtime_alive ≡ true
    → accounted p (resolve_promise promise success s) ≡ accounted p s + count p (promise ∷ [])
unfolding resolve_promise
resolve_promise-accounted p promise success s alive = rw alive (
    omega (
      arith,
      ap (count p) (map_promise-append s.resolved ((promise, success) ∷ [])),
      count-append p (map promise_of s.resolved) (promise ∷ []),
    ))

resolve_promise-alive :
    (promise : ℕ) (success : Bool) (s : Socket)
    → (resolve_promise promise success s).runtime_alive ≡ s.runtime_alive
unfolding resolve_promise
resolve_promise-alive promise success s = ground arith

on_connect-accounted :
    (timed_out error_code p promise : ℕ) (s : Socket)
    → s.runtime_alive ≡ true
    → accounted p (on_connect timed_out error_code promise s)
      ≡ accounted p s + count p (promise ∷ [])
unfolding on_connect
on_connect-accounted timed_out error_code p promise s alive =
    elim (Bool-cases (not (error_code == 0))) [
      | inr fine ↦ rw fine (resolve_promise-accounted p promise true _ alive)
      | inl failed ↦ elim (Bool-cases (not (error_code == timed_out))) [
        | inl told ↦ rw (failed, told) (resolve_promise-accounted p promise false _ alive)
        | inr quiet ↦ rw (failed, quiet) (resolve_promise-accounted p promise false _ alive)
      ]
    ]

on_write-accounted :
    (error_code p promise : ℕ) (s : Socket)
    → s.runtime_alive ≡ true
    → accounted p (on_write error_code promise s) ≡ accounted p s + count p (promise ∷ [])
unfolding on_write
on_write-accounted error_code p promise s alive = elim (Bool-cases (not (error_code == 0))) [
  | inr fine ↦ rw fine (resolve_promise-accounted p promise _ s alive)
  | inl failed ↦ rw failed (resolve_promise-accounted p promise _ s alive)
]

call_back-accounted :
    (timed_out error_code p : ℕ) (c : EngineCallback) (s : Socket)
    → s.runtime_alive ≡ true
    → accounted p (call_back timed_out error_code c s) ≡ accounted p s + count p (promised (c ∷ []))
unfolding call_back on_close
call_back-accounted timed_out error_code p (connect_callback promise) s alive =
    on_connect-accounted timed_out error_code p promise s alive
call_back-accounted timed_out error_code p (write_callback promise) s alive =
    on_write-accounted error_code p promise s alive
call_back-accounted timed_out error_code p (close_callback promise) s alive = omega arith

repeated_none :
    (place error_code : ℕ) (pending : List EngineCallback)
    → get_elem? pending place ≡ none
    → repeated_from pending (answer place error_code true) ≡ []
repeated_none place error_code pending n =
    ap (λ o. elim o [ none ↦ [] | some callback ↦ promised (callback ∷ []) ]) n

repeated_some :
    (place error_code : ℕ) (pending : List EngineCallback) (c : EngineCallback)
    → get_elem? pending place ≡ some c
    → repeated_from pending (answer place error_code true) ≡ promised (c ∷ [])
repeated_some place error_code pending c f =
    ap (λ o. elim o [ none ↦ [] | some callback ↦ promised (callback ∷ []) ]) f

pub answer_at-accounted :
    (timed_out place error_code p : ℕ) (kept : Bool) (s : Socket)
    → s.runtime_alive ≡ true
    → accounted p (answer_at timed_out place error_code kept s)
      ≡ accounted p s + count p (repeated_from s.pending (answer place error_code kept))
unfolding answer_at still_pending
answer_at-accounted timed_out place error_code p true s alive =
    elim (Option-cases (get_elem? s.pending place)) [
      | inl n ↦ rw (repeated_none place error_code s.pending n, n, answer_at) (omega arith)
      | inr (c, f) ↦
          rw (repeated_some place error_code s.pending c f, f, answer_at)
            (omega (arith, call_back-accounted timed_out error_code p c s alive))
    ]
answer_at-accounted timed_out place error_code p false s alive =
    elim (Option-cases (get_elem? s.pending place)) [
      | inl n ↦ rw (n, answer_at) (omega arith)
      | inr (c, f) ↦
          rw (f, answer_at)
            (omega (
              arith,
              call_back-accounted timed_out error_code p c
                  (record s { pending = remove_at s.pending place }) alive,
              promised-remove_at p place s.pending c f,
            ))
    ]
