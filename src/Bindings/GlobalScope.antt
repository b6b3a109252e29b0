-- ===== src/Bindings/GlobalScope.antt =====
-- src/playground/bindings/global_scope.cc, with the functions of global_callbacks.cc that scripts
-- call for events, and what src/playground/playground_controller.cc does with a callback. A
-- function of a script is known by a number. What it does with an event is a parameter: whether it
-- calls `preventDefault`, and which listeners it adds and removes, of the scope as it finds it.
pub mod Listeners
pub mod Runs
pub mod Dispatch
use playgroundjs_plugin.Common.{
  ℕ, [], if◌then◌else◌, Bytes, List, put_text, ltb, ◌++◌, Option, Bool, find_text, ◌∷◌, ◌==◌,
  length, some, none, ◌+◌, erase_text, false, not, ◌||◌, bytes_eq,
}
use playgroundjs_plugin.Plugin.Callback.{Callback}
use playgroundjs_plugin.Plugin.Values.{Arguments}
use playgroundjs_plugin.Bindings.Events.{
  Event, EventInstance, create_event, new_instance, prevent_default, is_default_prevented,
  to_event_type,
}

-- What a script or the runtime does to the listeners.
pub data ListenerAction : Type 0 where
  adds removes : (type : Bytes) (listener : ℕ) → ListenerAction
  removes_all : (type : Bytes) → ListenerAction
  verifies : ListenerAction

-- A call of a listener: the event as it was given it, whether it called `preventDefault`, and what
-- it did to the listeners.
pub record ListenerCall : Type 0 where
  pub listener : ℕ
  pub given : EventInstance
  pub prevents : Bool
  pub actions : List ListenerAction

-- `GlobalScope`, with `g_callback_type_map_`. `calls` holds the calls of listeners. The order of the
-- deferred events is that of the hash table of the original: here, the order in which they came.
pub record GlobalScope : Type 0 where
  pub events : List (Bytes × Event)
  pub event_listeners : List (Bytes × List ℕ)
  pub deferred_events : List (Bytes × Arguments)
  pub type_cache : List (Bytes × Bytes)
  pub calls : List ListenerCall

abbrev pub new_scope : GlobalScope
new_scope = record {
  events = [];
  event_listeners = [];
  deferred_events = [];
  type_cache = [];
  calls = [];
}

-- `RegisterEvent`
unfoldable pub register_event : Bytes → Event → GlobalScope → GlobalScope
register_event type event g = record g { events = put_text type event g.events }

-- `OnCallbacksAvailable`
unfoldable pub on_callbacks_available : List Callback → GlobalScope → GlobalScope
on_callbacks_available [] g = g
on_callbacks_available (callback ∷ callbacks) g =
    on_callbacks_available callbacks (register_event callback.name (create_event callback) g)

-- `GetEvent`
unfoldable pub get_event : Bytes → GlobalScope → Option Event
get_event type g = find_text type g.events

-- `StoreDeferredEvent`
unfoldable pub store_deferred_event : Bytes → Arguments → GlobalScope → GlobalScope
store_deferred_event type arguments g = record g {
  deferred_events = g.deferred_events ++ ((type, arguments) ∷ []);
}

-- The listeners of a type, where there is no entry none.
unfoldable pub listeners_of : Bytes → List (Bytes × List ℕ) → List ℕ
listeners_of type listeners = elim (find_text type listeners) [ none ↦ [] | some ids ↦ ids ]

-- `AddEventListener`
unfoldable pub add_event_listener : Bytes → ℕ → GlobalScope → GlobalScope
add_event_listener type listener g = record g {
  event_listeners =
      put_text type (listeners_of type g.event_listeners ++ (listener ∷ [])) g.event_listeners;
}

-- `HasEventListeners`
unfoldable pub has_event_listeners : Bytes → GlobalScope → Bool
has_event_listeners type g = elim (find_text type g.event_listeners) [
  | none ↦ false
  | some ids ↦ ltb 0 (length ids)
]

-- The loop of `RemoveEventListener`, which erases every copy.
unfoldable pub erase_listener : ℕ → List ℕ → List ℕ
erase_listener listener [] = []
erase_listener listener (id ∷ ids) =
    let behind = erase_listener listener ids in if listener == id then behind else id ∷ behind

-- `RemoveEventListener`, without a listener if the script gives none.
unfoldable pub remove_event_listener : Bytes → Option ℕ → GlobalScope → GlobalScope
remove_event_listener type listener g = elim (find_text type g.event_listeners) [
  | none ↦ g
  | some ids ↦ elim listener [
    | none ↦ record g { event_listeners = erase_text type g.event_listeners }
    | some id ↦ record g {
      event_listeners = put_text type (erase_listener id ids) g.event_listeners;
    }
  ]
]

-- `event_handler_count`
unfoldable pub count_handlers : List (Bytes × List ℕ) → ℕ
count_handlers [] = 0
count_handlers (e ∷ rest) = length e.1 + count_handlers rest

unfoldable pub event_handler_count : GlobalScope → ℕ
event_handler_count g = count_handlers g.event_listeners

-- The loop of `VerifyNoEventHandlersLeft`: the number of types that still have listeners.
unfoldable pub count_warnings : List (Bytes × List ℕ) → ℕ
count_warnings [] = 0
count_warnings (e ∷ rest) =
    let behind = count_warnings rest in if length e.1 == 0 then behind else behind + 1

unfoldable pub verify_no_event_handlers_left : GlobalScope → GlobalScope
verify_no_event_handlers_left g =
    if ltb 0 (count_warnings g.event_listeners) then g else record g { event_listeners = [] }

-- The loop of `GetDeferredEventsCallback`: an event of a type that is not known is dropped.
unfoldable pub deferred_instances :
    GlobalScope → List (Bytes × Arguments) → List (Bytes × EventInstance)
deferred_instances g [] = []
deferred_instances g ((type, arguments) ∷ rest) =
    let behind = deferred_instances g rest in
    elim (get_event type g) [
      | none ↦ behind
      | some event ↦ (type, new_instance event arguments) ∷ behind
    ]

-- `GetDeferredEventsCallback`
unfoldable pub get_deferred_events : GlobalScope → List (Bytes × EventInstance) × GlobalScope
get_deferred_events g = (deferred_instances g g.deferred_events, record g { deferred_events = [] })

-- One action on the listeners, and several.
abbrev pub act : ListenerAction → GlobalScope → GlobalScope
act (adds type listener) g = add_event_listener type listener g
act (removes type listener) g = remove_event_listener type (some listener) g
act (removes_all type) g = remove_event_listener type none g
act verifies g = verify_no_event_handlers_left g

abbrev pub act_all : List ListenerAction → GlobalScope → GlobalScope
act_all [] g = g
act_all (a ∷ actions) g = act_all actions (act a g)

-- Whether an action writes to the list of a type, if that has listeners.
abbrev pub touches : Bytes → ListenerAction → Bool
touches type (adds other listener) = bytes_eq type other
touches type (removes other listener) = bytes_eq type other
touches type (removes_all other) = bytes_eq type other
touches type verifies = false

abbrev pub any_touches : Bytes → List ListenerAction → Bool
any_touches type [] = false
any_touches type (a ∷ actions) = touches type a || any_touches type actions

module _ (reacts : ℕ → EventInstance → GlobalScope → Bool × List ListenerAction) where
  -- One listener: what has become of the event when it has run, and of the scope.
  unfoldable pub run_listener : ℕ → EventInstance → GlobalScope → EventInstance × GlobalScope
  run_listener id event g =
      let reaction = reacts id event g in
      let behind = act_all (reaction.1) g in
      let call : ListenerCall = record {
        listener = id;
        given = event;
        prevents = reaction.0;
        actions = reaction.1;
      } in
      (
        if reaction.0 then prevent_default event else event,
        record behind { calls = behind.calls ++ (call ∷ []) },
      )

  -- The loop of `DispatchEvent` over the list of the type, which it reads in place: `none` where a
  -- listener writes to that list, after which the loop goes on with iterators that are not valid.
  unfoldable pub run_listeners :
      Bytes → List ℕ → EventInstance → GlobalScope → Option (EventInstance × GlobalScope)
  run_listeners type [] event g = some (event, g)
  run_listeners type (id ∷ ids) event g =
      let ran = run_listener id event g in
      let rest = run_listeners type ids (ran.0) (ran.1) in
      if any_touches type ((reacts id event g).1) then none else rest

  -- `DispatchEvent`
  unfoldable pub dispatch_event : Bytes → EventInstance → GlobalScope → Option (Bool × GlobalScope)
  dispatch_event type event g = elim (find_text type g.event_listeners) [
    | none ↦ some (false, g)
    | some ids ↦ elim (run_listeners type ids event g) [
      | none ↦ none
      | some ran ↦ some (is_default_prevented (ran.0), ran.1)
    ]
  ]

  -- `OnCallbackIntercepted`: `none` where there is no event of that name, where a check ends the
  -- process, and where the loop of `DispatchEvent` goes wrong.
  unfoldable pub on_callback_intercepted :
      Bytes → Arguments → Bool → GlobalScope → Option (Bool × GlobalScope)
  on_callback_intercepted callback arguments deferred g =
      if deferred
      then some (false, store_deferred_event callback arguments g)
      else let typed = to_event_type callback g.type_cache in
        let cached = record g { type_cache = typed.1 } in
        if not (has_event_listeners typed.0 cached)
        then some (false, cached)
        else elim (get_event callback cached) [
          | none ↦ none
          | some event ↦ dispatch_event typed.0 (new_instance event arguments) cached
        ]
