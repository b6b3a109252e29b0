-- ===== src/Bindings/EventTests.antt =====
-- Events, natives and timers on concrete inputs, and the theorems at inputs that meet their
-- hypotheses.
use playgroundjs_plugin.Base.StringPiece.{starts_with, remove_prefix}
use playgroundjs_plugin.Plugin.Amx.{Amx}
use playgroundjs_plugin.Plugin.Callback.{Callback, type_int, type_string}
use playgroundjs_plugin.Common.{
  ℕ, bytes_eq, codes, List, ◌∷◌, Bool, find_text, Bytes, ◌≡◌, if◌then◌else◌, [], put_text, map, ltb,
  some, ◌==◌, false, none, true, ◌+◌, length, refl, ◌≤◌, subst, some_inj, arith, Bool-cases, inl,
  inr,
}
use playgroundjs_plugin.Bindings.Events.{
  create_event, to_event_type, create_event_type, without_on, EventInstance,
}
use playgroundjs_plugin.Bindings.Events.TypeCache.{
  IsTypeCache, IsTypeCache-nil, to_event_type-IsTypeCache,
}
use playgroundjs_plugin.Bindings.GlobalScope.{
  GlobalScope, new_scope, get_event, on_callback_intercepted, listeners_of, has_event_listeners,
  any_touches, act_all, ListenerAction, removes, adds, verifies, removes_all,
}
use playgroundjs_plugin.Bindings.GlobalScope.Listeners.{promised_tables, table_of, act_all-refines}
use playgroundjs_plugin.Bindings.GlobalScope.Dispatch.{
  IsDispatched, on_callback_intercepted-IsDispatched,
}
use playgroundjs_plugin.Bindings.ProvidedNatives.{
  call, register, set_natives, count_signature, is_known, call_native, read_arguments,
  read_argument, Returned, NativeArgument, array_returned, int32_element, ProvidedNatives,
  StoredNative,
}
use playgroundjs_plugin.Bindings.ProvidedNatives.Answers.{promised_answer, arguments_from}
use playgroundjs_plugin.Bindings.ProvidedNatives.Calls.{registry_of, call-answers}
use playgroundjs_plugin.Plugin.NativeParameters.{NativeParameters, count, get_parameter, checked}
use playgroundjs_plugin.Bindings.Promise.{
  settle_all, new_promise, resolved, rejected, settle_all-first,
}
use playgroundjs_plugin.Bindings.Timers.{take_due, add_timer}
use playgroundjs_plugin.Bindings.Timers.Due.{IsDueResult, take_due-due}
use playgroundjs_plugin.Bindings.Timers.SortedQueue.{
  sorted_queue, sorted_queue-laws, insert_sorted, pop_sorted,
}

abbrev event_amx : Amx
event_amx = record {
  identity = 1;
  paramcount = 2;
  stack = λ place. if place == 0 then 7 else 42;
  memory = λ address. 0;
  get_addr = λ address. some address;
  str_len = λ address. some 2;
  get_amx_string = λ address size. some (codes "hi");
  num_publics = some 1;
  get_public = λ index. some (codes "OnPlayerText");
}

abbrev text_callback : Callback
text_callback = record {
  name = codes "OnPlayerText";
  arguments = (codes "playerid", type_int) ∷ (codes "text", type_string) ∷ [];
  cancelable = true;
  deferred = false;
  return_value = 1;
}

typed : create_event_type (codes "OnPlayerText") ≡ codes "playertext"
unfolding create_event_type without_on starts_with remove_prefix bytes_eq
typed = refl

to_event_type-IsTypeCache_example :
    ((to_event_type (codes "OnPlayerText") []).0 ≡ create_event_type (codes "OnPlayerText"))
    × IsTypeCache (to_event_type (codes "OnPlayerText") []).1
to_event_type-IsTypeCache_example =
    to_event_type-IsTypeCache (codes "OnPlayerText") [] IsTypeCache-nil

abbrev listener_actions : List ListenerAction
listener_actions =
    adds (codes "playertext") 1
    ∷ adds (codes "playertext") 2
    ∷ adds (codes "playertext") 1
    ∷ adds (codes "dialog") 3
    ∷ removes (codes "playertext") 1
    ∷ verifies
    ∷ removes_all (codes "dialog")
    ∷ []

act_all-refines_example :
    (listeners_of (codes "playertext") (act_all listener_actions new_scope).event_listeners
      ≡ promised_tables listener_actions (table_of new_scope) (codes "playertext"))
    × (has_event_listeners (codes "playertext") (act_all listener_actions new_scope)
        ≡ ltb 0
            (length (promised_tables listener_actions (table_of new_scope) (codes "playertext"))))
act_all-refines_example = act_all-refines listener_actions new_scope (codes "playertext")

-- Listeners 1 and 2, of which the second calls preventDefault.
abbrev heard_scope : GlobalScope
heard_scope = record {
  events = (codes "OnPlayerText", create_event text_callback) ∷ [];
  event_listeners = (codes "playertext", 1 ∷ 2 ∷ []) ∷ [];
  deferred_events = [];
  type_cache = [];
  calls = [];
}

-- Listener 2 also takes a listener away from another type.
abbrev second_prevents : ℕ → EventInstance → GlobalScope → Bool × List ListenerAction
second_prevents listener event g =
    (listener == 2, if listener == 2 then removes (codes "dialog") 3 ∷ [] else [])

second_calm :
    (id : ℕ) (event : EventInstance) (g : GlobalScope)
    → any_touches (create_event_type (codes "OnPlayerText")) (second_prevents id event g).1 ≡ false
unfolding create_event_type bytes_eq without_on starts_with remove_prefix
second_calm id event g = elim (Bool-cases (id == 2)) [
  | inl second ↦ rw second refl
  | inr first ↦ rw first refl
]

known_event : get_event (codes "OnPlayerText") heard_scope ≡ some (create_event text_callback)
unfolding get_event find_text bytes_eq
known_event = refl

on_callback_intercepted-IsDispatched_example :
    (result : Bool × GlobalScope) × (on_callback_intercepted second_prevents
        (codes "OnPlayerText")
        []
        false
        heard_scope
      ≡ some result)
    × IsDispatched (create_event_type (codes "OnPlayerText")) true heard_scope result
    × IsTypeCache result.1.type_cache
on_callback_intercepted-IsDispatched_example =
    on_callback_intercepted-IsDispatched second_prevents (codes "OnPlayerText") []
      (create_event text_callback) heard_scope IsTypeCache-nil known_event second_calm

-- A native that gets an integer and gives one back by reference.
abbrev offers : List (Bytes × Bytes × ℕ)
offers = (codes "GetHealth", codes "iI", 1) ∷ []

abbrev health_function : ℕ → List NativeArgument → Returned
health_function fn arguments = array_returned (int32_element 90 0 ∷ [])

-- Two parameters, or as many as so many bytes hold.
abbrev native_parameters : ℕ → NativeParameters
native_parameters bytes = record {
  amx = event_amx;
  params = λ place. if place == 0 then bytes else place + 100;
}

abbrev health_registry : ProvidedNatives
health_registry = registry_of (codes "GetHealth" ∷ []) offers

enough_parameters :
    (native : StoredNative)
    → find_text (codes "GetHealth") health_registry.native_handlers ≡ some native
    → length native.signature ≤ count (native_parameters 8)
unfolding register set_natives is_known count_signature find_text put_text bytes_eq count
enough_parameters native e = subst (λ n. length n.signature ≤ 2) (some_inj e) (omega arith)

call-answers_example :
    call health_function (codes "GetHealth") (native_parameters 8) health_registry
    ≡ elim (find_text (codes "GetHealth") health_registry.native_handlers) [
      | none ↦ some (0, [])
      | some native ↦ some (
          promised_answer (native_parameters 8) native (
            health_function native.reference
              (arguments_from (native_parameters 8) 0 native.signature)))
    ]
call-answers_example =
    call-answers health_function (codes "GetHealth" ∷ []) offers (codes "GetHealth")
      (native_parameters 8) enough_parameters

-- With an input behind a reference, one parameter passes the test of the count, and the process
-- ends at a check.
ended :
    call health_function
      (codes "GetHealth")
      (native_parameters 4)
      (registry_of (codes "GetHealth" ∷ []) ((codes "GetHealth", codes "Ii", 1) ∷ []))
    ≡ none
unfolding call register set_natives is_known count_signature find_text put_text bytes_eq count
    call_native read_arguments read_argument get_parameter checked
ended = refl

settle_all-first_example :
    settle_all (rejected 3 ∷ resolved 4 ∷ resolved 5 ∷ []) new_promise
    ≡ (true ∷ false ∷ false ∷ [], record { has_settled = true; outcomes = rejected 3 ∷ [] })
settle_all-first_example = settle_all-first (rejected 3) (resolved 4 ∷ resolved 5 ∷ [])

abbrev three_timers : sorted_queue.Queue
three_timers =
    add_timer sorted_queue 100 1 50
      (add_timer sorted_queue 100 2 20 (add_timer sorted_queue 100 3 400 sorted_queue.empty))

ran : map (λ timer. timer.promise) (take_due sorted_queue 3 200 three_timers).0 ≡ 2 ∷ 1 ∷ []
unfolding take_due add_timer insert_sorted pop_sorted
ran = refl

take_due-due_example :
    IsDueResult sorted_queue sorted_queue-laws three_timers 200
      (take_due sorted_queue (sorted_queue.size three_timers) 200 three_timers)
take_due-due_example = take_due-due sorted_queue sorted_queue-laws 200 three_timers
