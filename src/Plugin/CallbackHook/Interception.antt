-- ===== src/Plugin/CallbackHook/Interception.antt =====
-- When src/playground/plugin/callback_hook.cc answers a call of the server itself.
use playgroundjs_plugin.Plugin.Callback.{Callback}
use playgroundjs_plugin.Plugin.Amx.{Amx}
use playgroundjs_plugin.Plugin.Values.{Arguments}
use playgroundjs_plugin.Plugin.CallbackHook.{
  answered, forwarded, CallbackHook, on_execute, ExecIndex, is_gamemode, exec_public, same_index,
  intercepted_arguments, do_intercept, execute_public, exec_main, exec_cont,
}
use playgroundjs_plugin.Common.{
  ℕ, Bytes, Bool, Option, ◌≡◌, true, if◌then◌else◌, some, none, false, find_id, length, ◌≤◌, arith,
  inl, inr, Option-cases, refl,
}

-- What an answer takes: no ignore in place, a public function of the gamemode that is not
-- OnPlayerUpdate and is registered for a callback, enough arguments on the stack, and a delegate
-- that handles it.
pub record IsIntercepted (delegate : Bytes → Arguments → Bool → Bool) (amx : Amx)
    (index : ExecIndex) (h : CallbackHook) (callback : Callback) : Type 0 where
  pub not_ignored : h.ignore_depth ≡ 0
  pub from_gamemode : is_gamemode amx h ≡ true
  pub public_index : ℕ
  pub is_public : index ≡ exec_public public_index
  pub other_index : same_index index h.on_player_update_index ≡ false
  pub registered : find_id public_index h.intercept_indices ≡ some callback
  pub enough : length callback.arguments ≤ amx.paramcount
  pub handled :
      delegate callback.name
        (intercepted_arguments amx callback h.array_buffer).values
        callback.deferred
      ≡ true

forwarded-ne-answered {ℓ} : {A : Type ℓ} {retval : Option ℕ} → forwarded ≡ answered retval → A
forwarded-ne-answered e = absurd (ground arith)

answered_inj : (a b : Option ℕ) → answered a ≡ answered b → a ≡ b
answered_inj a b e = ground arith

module _ (delegate : Bytes → Arguments → Bool → Bool) (amx : Amx) (has_retval : Bool) where
  -- What `DoIntercept` answers with, and when.
  record IsHandled (callback : Callback) (h : CallbackHook) (retval : Option ℕ) : Type 0 where
    enough : length callback.arguments ≤ amx.paramcount
    handled :
        delegate callback.name
          (intercepted_arguments amx callback h.array_buffer).values
          callback.deferred
        ≡ true
    stored : retval ≡ (if has_retval then some callback.return_value else none)

  do_intercept-answered :
      (callback : Callback) (h : CallbackHook) (retval : Option ℕ)
      → (do_intercept delegate amx has_retval callback h).0 ≡ answered retval
      → IsHandled callback h retval
  unfolding do_intercept
  do_intercept-answered callback h retval e = ground arith

  execute_public-answered :
      (index : ExecIndex) (h : CallbackHook) (retval : Option ℕ)
      → (execute_public delegate amx has_retval index h).0 ≡ answered retval
      → (i : ℕ) × (callback : Callback) × (index ≡ exec_public i)
        × (find_id i h.intercept_indices ≡ some callback)
        × IsHandled callback h retval
  unfolding execute_public
  execute_public-answered exec_main h retval e = absurd (ground arith)
  execute_public-answered exec_cont h retval e = absurd (ground arith)
  execute_public-answered (exec_public i) h retval e =
      elim (Option-cases (find_id i h.intercept_indices)) [
        | inl n ↦ absurd (ground arith)
        | inr (callback, f) ↦
            (i, callback, refl, f, do_intercept-answered callback h retval (ground arith))
      ]

  on_execute-public :
      (index : ExecIndex) (h : CallbackHook) (retval : Option ℕ)
      → (on_execute delegate amx has_retval index h).0 ≡ answered retval
      → (h.ignore_depth ≡ 0)
        × (is_gamemode amx h ≡ true)
        × (same_index index h.on_player_update_index ≡ false)
        × ((execute_public delegate amx has_retval index h).0 ≡ answered retval)
  unfolding on_execute
  on_execute-public index h retval e = ground arith

-- A call is answered by the plugin only if all of that holds for some callback, and then the value
-- stored, if there is a place for it, is the one of that callback's annotations.
pub on_execute-answered :
    (delegate : Bytes → Arguments → Bool → Bool) (amx : Amx) (has_retval : Bool) (index : ExecIndex)
    (h : CallbackHook) (retval : Option ℕ)
    → (on_execute delegate amx has_retval index h).0 ≡ answered retval
    → (callback : Callback) × IsIntercepted delegate amx index h callback
      × (retval ≡ (if has_retval then some callback.return_value else none))
on_execute-answered delegate amx has_retval index h retval e =
    let (quiet, mine, other, run) = on_execute-public delegate amx has_retval index h retval e in
    let (i, callback, is_i, found, handled) =
      execute_public-answered delegate amx has_retval index h retval run in
    (
      callback,
      record {
        not_ignored = quiet;
        from_gamemode = mine;
        public_index = i;
        is_public = is_i;
        other_index = other;
        registered = found;
        enough = handled.enough;
        handled = handled.handled;
      },
      handled.stored,
    )
