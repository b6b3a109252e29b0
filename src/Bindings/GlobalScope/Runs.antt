-- ===== src/Bindings/GlobalScope/Runs.antt =====
-- The loop over the listeners of an event, each of which may do anything to the listeners but write
-- to the list of the event's type.
use playgroundjs_plugin.Bindings.GlobalScope.Listeners.{
  ListenerTable, promised_tables, promised_table, table_of, promised_tables-agree, act_all-table_of,
}
use playgroundjs_plugin.Bindings.Events.{prevent_default, EventInstance}
use playgroundjs_plugin.Bindings.GlobalScope.{
  add_event_listener, ListenerCall, ListenerAction, remove_event_listener, GlobalScope,
  verify_no_event_handlers_left, touches, act, run_listeners, any_touches, act_all, adds,
  run_listener, removes, removes_all, verifies,
}
use playgroundjs_plugin.Common.{
  [], ℕ, List, Bytes, Option, Bool, ◌≡◌, some, ◌∷◌, false, if◌then◌else◌, arith, ◌||◌, ◌++◌, none,
  ◌∙◌, map, true, refl, sym, append-nil, append_assoc, ap,
}

-- The flag of an event after some calls of which one calls `preventDefault`, or none.
abbrev pub flag_after : Option (Option Bool) → Bool → Option (Option Bool)
flag_after flag false = flag
flag_after none true = none
flag_after (some decided) true = some (some true)

-- Whether one of the calls calls `preventDefault`, and what all do to the listeners.
abbrev pub any_prevents : List ListenerCall → Bool
any_prevents [] = false
any_prevents (call ∷ calls) = call.prevents || any_prevents calls

abbrev pub all_actions : List ListenerCall → List ListenerAction
all_actions [] = []
all_actions (call ∷ calls) = call.actions ++ all_actions calls

abbrev pub listener_of : ListenerCall → ℕ
listener_of call = call.listener

flag_after-twice :
    (flag : Option (Option Bool)) (first second : Bool)
    → flag_after (flag_after flag first) second ≡ flag_after flag (first || second)
flag_after-twice flag false second = refl
flag_after-twice none true false = refl
flag_after-twice none true true = refl
flag_after-twice (some decided) true false = refl
flag_after-twice (some decided) true true = refl

prevent_default-flag :
    (prevents : Bool) (event : EventInstance)
    → (if prevents then prevent_default event else event).default_prevented
      ≡ flag_after event.default_prevented prevents
unfolding prevent_default
prevent_default-flag false event = refl
prevent_default-flag true event = ground arith

act-calls : (a : ListenerAction) (g : GlobalScope) → (act a g).calls ≡ g.calls
unfolding add_event_listener remove_event_listener verify_no_event_handlers_left
act-calls (adds type listener) g = refl
act-calls (removes type listener) g = ground arith
act-calls (removes_all type) g = ground arith
act-calls verifies g = ground arith

act-cache : (a : ListenerAction) (g : GlobalScope) → (act a g).type_cache ≡ g.type_cache
unfolding add_event_listener remove_event_listener verify_no_event_handlers_left
act-cache (adds type listener) g = refl
act-cache (removes type listener) g = ground arith
act-cache (removes_all type) g = ground arith
act-cache verifies g = ground arith

act_all-calls :
    (actions : List ListenerAction) (g : GlobalScope) → (act_all actions g).calls ≡ g.calls
act_all-calls [] g = refl
act_all-calls (a ∷ actions) g = act_all-calls actions (act a g) ∙ act-calls a g

act_all-cache :
    (actions : List ListenerAction) (g : GlobalScope)
    → (act_all actions g).type_cache ≡ g.type_cache
act_all-cache [] g = refl
act_all-cache (a ∷ actions) g = act_all-cache actions (act a g) ∙ act-cache a g

promised_tables-append :
    (first second : List ListenerAction) (table : ListenerTable)
    → promised_tables (first ++ second) table ≡ promised_tables second (promised_tables first table)
promised_tables-append [] second table = refl
promised_tables-append (a ∷ first) second table =
    promised_tables-append first second (promised_table a table)

untouched :
    (type : Bytes) (a : ListenerAction) (table : ListenerTable)
    → touches type a ≡ false
    → promised_table a table type ≡ table type
untouched type (adds other listener) table h = rw h refl
untouched type (removes other listener) table h = rw h refl
untouched type (removes_all other) table h = rw h refl
untouched type verifies table h = refl

all_untouched :
    (type : Bytes) (actions : List ListenerAction) (table : ListenerTable)
    → any_touches type actions ≡ false
    → promised_tables actions table type ≡ table type
all_untouched type [] table h = refl
all_untouched type (a ∷ actions) table h =
    all_untouched type actions (promised_table a table) (ground arith)
    ∙ untouched type a table (ground arith)

-- What a run over listeners comes to: each is called, once and in order; the flag of the event is
-- set if one of them prevents; and all the tables are those after everything that they did, the one
-- of the type as before.
pub record IsRun (type : Bytes) (ids : List ℕ) (event : EventInstance) (g : GlobalScope)
    (outcome : Option (EventInstance × GlobalScope)) : Type 0 where
  pub made : List ListenerCall
  pub ran : EventInstance × GlobalScope
  pub defined : outcome ≡ some ran
  pub recorded : ran.1.calls ≡ g.calls ++ made
  pub in_order : map listener_of made ≡ ids
  pub flagged : ran.0.default_prevented ≡ flag_after event.default_prevented (any_prevents made)
  pub tables : (t : Bytes) → table_of ran.1 t ≡ promised_tables (all_actions made) (table_of g) t
  pub kept : table_of ran.1 type ≡ table_of g type
  pub same_cache : ran.1.type_cache ≡ g.type_cache

module _ (reacts : ℕ → EventInstance → GlobalScope → Bool × List ListenerAction) where
  call_of : ℕ → EventInstance → GlobalScope → ListenerCall
  call_of id event g = record {
    listener = id;
    given = event;
    prevents = (reacts id event g).0;
    actions = (reacts id event g).1;
  }

  pub run_listeners-IsRun :
      (type : Bytes)
      → ((id : ℕ) (event : EventInstance) (g : GlobalScope)
          → any_touches type (reacts id event g).1 ≡ false)
      → (ids : List ℕ) (event : EventInstance) (g : GlobalScope)
      → IsRun type ids event g (run_listeners reacts type ids event g)
  unfolding run_listeners run_listener call_of
  run_listeners-IsRun type calm [] event g = record {
    made = [];
    ran = (event, g);
    defined = refl;
    recorded = sym (append-nil g.calls);
    in_order = refl;
    flagged = refl;
    tables = λ t. refl;
    kept = refl;
    same_cache = refl;
  }
  run_listeners-IsRun type calm (id ∷ ids) event g =
      let after = run_listener reacts id event g in
      let actions = (reacts id event g).1 in
      let rest = run_listeners-IsRun type calm ids after.0 after.1 in
      record {
        made = call_of id event g ∷ rest.made;
        ran = rest.ran;
        defined = rw (calm id event g) rest.defined;
        recorded =
            rest.recorded
            ∙ append_assoc (act_all actions g).calls (call_of id event g ∷ []) rest.made
            ∙ ap (λ l. l ++ (call_of id event g ∷ rest.made)) (act_all-calls actions g);
        in_order = ap (λ l. id ∷ l) rest.in_order;
        flagged =
            rest.flagged
            ∙ ap (λ f. flag_after f (any_prevents rest.made))
                (prevent_default-flag (reacts id event g).0 event)
            ∙ flag_after-twice event.default_prevented (reacts id event g).0
                (any_prevents rest.made);
        tables = λ t.
            rest.tables t
            ∙ promised_tables-agree (all_actions rest.made) (table_of (act_all actions g))
                (promised_tables actions (table_of g)) (act_all-table_of actions g) t
            ∙ ap (λ (f : ListenerTable). f t)
                (sym (promised_tables-append actions (all_actions rest.made) (table_of g)));
        kept =
            rest.kept
            ∙ act_all-table_of actions g type
            ∙ all_untouched type actions (table_of g) (calm id event g);
        same_cache = rest.same_cache ∙ act_all-cache actions g;
      }
