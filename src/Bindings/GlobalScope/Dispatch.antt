-- ===== src/Bindings/GlobalScope/Dispatch.antt =====
-- Who is called for an event, and what the server is told.
use playgroundjs_plugin.Bindings.GlobalScope.Listeners.{table_of, promised_tables}
use playgroundjs_plugin.Bindings.GlobalScope.Runs.{
  flag_after, listener_of, any_prevents, run_listeners-IsRun, all_actions,
}
use playgroundjs_plugin.Bindings.Events.TypeCache.{IsTypeCache, to_event_type-IsTypeCache}
use playgroundjs_plugin.Plugin.Values.{Arguments}
use playgroundjs_plugin.Common.{
  List, ℕ, Bool, map, false, ◌≡◌, some, none, ◌++◌, true, [], sym, append-nil, arith, refl, ◌∙◌,
  Bool-cases, ap, inl, inr, Bytes, ◌&&◌, if◌then◌else◌, Option-cases, find_text, subst, length-zero,
  Option,
}
use playgroundjs_plugin.Bindings.GlobalScope.{
  GlobalScope, run_listeners, dispatch_event, listeners_of, has_event_listeners, get_event,
  on_callback_intercepted, ListenerAction, ListenerCall, any_touches,
}
use playgroundjs_plugin.Bindings.Events.{
  EventInstance, is_default_prevented, Event, create_event_type, new_instance, to_event_type,
  install_prototype,
}

-- What the dispatch of an event of a type comes to: each function that listens to the type is
-- called, once and in their order; the event is prevented if it is cancelable and one of the calls
-- prevents; the listeners of every type are those after everything that the calls did to them, and
-- those of the type the same as before.
abbrev pub IsDispatched : Bytes → Bool → GlobalScope → Bool × GlobalScope → Type 0
IsDispatched type cancelable g result =
    (made : List ListenerCall) × (result.1.calls ≡ g.calls ++ made)
    × (map listener_of made ≡ listeners_of type g.event_listeners)
    × (result.0 ≡ cancelable && any_prevents made)
    × ((t : Bytes) → table_of result.1 t ≡ promised_tables (all_actions made) (table_of g) t)
    × (table_of result.1 type ≡ table_of g type)

-- Whether the flag of an event that is created cancelable or not tells that it is prevented.
decided :
    (cancelable prevents : Bool) (event : EventInstance)
    → event.default_prevented ≡ flag_after (if cancelable then some none else none) prevents
    → is_default_prevented event ≡ cancelable && prevents
unfolding is_default_prevented
decided true true event h = rw (h, is_default_prevented) refl
decided true false event h = rw (h, is_default_prevented) refl
decided false true event h = rw (h, is_default_prevented) refl
decided false false event h = rw (h, is_default_prevented) refl

and_false : (b : Bool) → false ≡ b && false
and_false true = refl
and_false false = refl

undispatched :
    (type : Bytes) (cancelable : Bool) (g : GlobalScope)
    → listeners_of type g.event_listeners ≡ []
    → IsDispatched type cancelable g (false, g)
undispatched type cancelable g e =
    ([], sym (append-nil g.calls), sym e, and_false cancelable, (λ t. refl), refl)

listeners_of-none :
    (type : Bytes) (g : GlobalScope)
    → find_text type g.event_listeners ≡ none
    → listeners_of type g.event_listeners ≡ []
unfolding listeners_of
listeners_of-none type g e = rw (e, listeners_of) refl

listeners_of-some :
    (type : Bytes) (g : GlobalScope) (ids : List ℕ)
    → find_text type g.event_listeners ≡ some ids
    → listeners_of type g.event_listeners ≡ ids
unfolding listeners_of
listeners_of-some type g ids e = rw (e, listeners_of) refl

module _ (reacts : ℕ → EventInstance → GlobalScope → Bool × List ListenerAction) where
  -- A dispatch that is defined, with what it comes to and the cache of types as before.
  abbrev IsDefined : Bytes → Bool → GlobalScope → Option (Bool × GlobalScope) → Type 0
  IsDefined type cancelable g outcome =
      (result : Bool × GlobalScope) × (outcome ≡ some result)
      × IsDispatched type cancelable g result
      × (result.1.type_cache ≡ g.type_cache)

  dispatch_run :
      (type : Bytes) (ids : List ℕ) (event : EventInstance) (g : GlobalScope)
      (ran : EventInstance × GlobalScope)
      → find_text type g.event_listeners ≡ some ids
      → run_listeners reacts type ids event g ≡ some ran
      → dispatch_event reacts type event g ≡ some (is_default_prevented ran.0, ran.1)
  unfolding dispatch_event
  dispatch_run type ids event g ran e h = rw (e, dispatch_event, h) refl

  dispatch_event-IsDefined :
      (type : Bytes) (cancelable : Bool) (event : EventInstance) (g : GlobalScope)
      → ((id : ℕ) (event : EventInstance) (g : GlobalScope)
          → any_touches type (reacts id event g).1 ≡ false)
      → event.default_prevented ≡ (if cancelable then some none else none)
      → IsDefined type cancelable g (dispatch_event reacts type event g)
  unfolding dispatch_event
  dispatch_event-IsDefined type cancelable event g calm h =
      elim (Option-cases (find_text type g.event_listeners)) [
        | inl e ↦ (
          (false, g),
          rw (e, dispatch_event) refl,
          undispatched type cancelable g (listeners_of-none type g e),
          refl,
        )
        | inr (ids, e) ↦
            let run = run_listeners-IsRun reacts type calm ids event g in
            (
              (is_default_prevented run.ran.0, run.ran.1),
              dispatch_run type ids event g run.ran e run.defined,
              (
                run.made,
                run.recorded,
                run.in_order ∙ sym (listeners_of-some type g ids e),
                decided cancelable (any_prevents run.made) run.ran.0
                    (run.flagged ∙ ap (λ f. flag_after f (any_prevents run.made)) h),
                run.tables,
                run.kept,
              ),
              run.same_cache,
            )
      ]

  no_listeners :
      (type : Bytes) (g : GlobalScope)
      → has_event_listeners type g ≡ false
      → listeners_of type g.event_listeners ≡ []
  unfolding has_event_listeners listeners_of
  no_listeners type g h = ground (arith, length-zero (listeners_of type g.event_listeners))

  new_instance-flag :
      (event : Event) (arguments : Arguments)
      → (new_instance event arguments).default_prevented
        ≡ (if event.callback.cancelable then some none else none)
  unfolding new_instance install_prototype
  new_instance-flag event arguments = refl

  -- The scope once the type of the event of a callback has been looked up.
  abbrev cached_scope : Bytes → GlobalScope → GlobalScope
  cached_scope callback g = record g { type_cache = (to_event_type callback g.type_cache).1 }

  intercept_unheard :
      (callback : Bytes) (arguments : Arguments) (g : GlobalScope)
      → has_event_listeners (to_event_type callback g.type_cache).0 (cached_scope callback g)
        ≡ false
      → on_callback_intercepted reacts callback arguments false g
        ≡ some (false, cached_scope callback g)
  unfolding on_callback_intercepted
  intercept_unheard callback arguments g h = rw (on_callback_intercepted, h) refl

  intercept_heard :
      (callback : Bytes) (arguments : Arguments) (event : Event) (g : GlobalScope)
      → has_event_listeners (to_event_type callback g.type_cache).0 (cached_scope callback g) ≡ true
      → get_event callback g ≡ some event
      → on_callback_intercepted reacts callback arguments false g
        ≡ dispatch_event reacts
            (to_event_type callback g.type_cache).0
            (new_instance event arguments)
            (cached_scope callback g)
  unfolding on_callback_intercepted get_event
  intercept_heard callback arguments event g h known =
      rw (on_callback_intercepted, h, get_event, known) refl

  -- A callback that is not deferred, of which the event is known, calls the functions that listen to
  -- the type of its event, each once with the event and in their order, whatever these do to the
  -- listeners of other types; the callback is answered as handled exactly if it is cancelable and
  -- one of them calls preventDefault on the event. The listeners of the event's type stay as they
  -- are, those of every type are what the calls have made of them, and the cache of types stays
  -- right. No listener writes to the list of the type that it is called for.
  pub on_callback_intercepted-IsDispatched :
      (callback : Bytes) (arguments : Arguments) (event : Event) (g : GlobalScope)
      → IsTypeCache g.type_cache
      → get_event callback g ≡ some event
      → ((id : ℕ) (event : EventInstance) (g : GlobalScope)
          → any_touches (create_event_type callback) (reacts id event g).1 ≡ false)
      → (result : Bool × GlobalScope) × (on_callback_intercepted reacts callback arguments false g
          ≡ some result)
        × IsDispatched (create_event_type callback) event.callback.cancelable g result
        × IsTypeCache result.1.type_cache
  on_callback_intercepted-IsDispatched callback arguments event g cache known calm =
      let typed = to_event_type-IsTypeCache callback g.type_cache cache in
      let type = (to_event_type callback g.type_cache).0 in
      let made = new_instance event arguments in
      let cached = cached_scope callback g in
      let as_type = λ (result : Bool × GlobalScope).
        subst (λ t. IsDispatched t event.callback.cancelable g result) typed.0 in
      elim (Bool-cases (has_event_listeners type cached)) [
        | inl h ↦
            let (result, defined, dispatched, same) =
              dispatch_event-IsDefined type event.callback.cancelable made cached
                (λ id e s. ap (λ t. any_touches t (reacts id e s).1) typed.0 ∙ calm id e s)
                (new_instance-flag event arguments) in
            (
              result,
              intercept_heard callback arguments event g h known ∙ defined,
              as_type result dispatched,
              subst IsTypeCache (sym same) typed.1,
            )
        | inr h ↦ (
          (false, cached),
          intercept_unheard callback arguments g h,
          as_type (false, cached)
              (undispatched type event.callback.cancelable cached (no_listeners type cached h)),
          typed.1,
        )
      ]
