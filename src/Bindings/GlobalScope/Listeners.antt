-- ===== src/Bindings/GlobalScope/Listeners.antt =====
-- The listeners of src/playground/bindings/global_scope.cc, as an abstract table: for each type of
-- event, the functions that listen to it, in order, a function as often as it was added.
use playgroundjs_plugin.Common.{
  if◌then◌else◌, some, List, Bytes, find_text, bytes_eq, none, ◌≡◌, ℕ, ◌∷◌, [], arith, ◌++◌,
  find_text-put, find_text-erase, refl, bytes_eq_iff, ◌∙◌, ltb, length, ap, Bool-cases, inl, inr,
  sym, length-zero, ℕ_discrete,
}
use playgroundjs_plugin.Bindings.GlobalScope.{
  GlobalScope, add_event_listener, remove_event_listener, has_event_listeners, listeners_of,
  erase_listener, verify_no_event_handlers_left, count_warnings, removes, removes_all,
  ListenerAction, adds, act, act_all, verifies,
}

-- The functions that are not this one, in order.
abbrev pub others : ℕ → List ℕ → List ℕ
others listener [] = []
others listener (id ∷ ids) = elim (ℕ_discrete listener id) [
  | yes _ ↦ others listener ids
  | no _ ↦ id ∷ others listener ids
]

-- The abstract table, and what each action promises of it.
abbrev pub ListenerTable : Type 0
ListenerTable = Bytes → List ℕ

abbrev pub promised_table : ListenerAction → ListenerTable → ListenerTable
promised_table (adds type listener) table t =
    if bytes_eq t type then table t ++ (listener ∷ []) else table t
promised_table (removes type listener) table t =
    if bytes_eq t type then others listener (table t) else table t
promised_table (removes_all type) table t = if bytes_eq t type then [] else table t
promised_table verifies table t = table t

abbrev pub promised_tables : List ListenerAction → ListenerTable → ListenerTable
promised_tables [] table = table
promised_tables (a ∷ actions) table = promised_tables actions (promised_table a table)

abbrev pub table_of : GlobalScope → ListenerTable
table_of g t = listeners_of t g.event_listeners

add-table_of :
    (type : Bytes) (listener : ℕ) (g : GlobalScope) (t : Bytes)
    → table_of (add_event_listener type listener g) t
      ≡ promised_table (adds type listener) (table_of g) t
unfolding add_event_listener listeners_of
add-table_of type listener g t = ground (
  arith,
  find_text-put t type (listeners_of type g.event_listeners ++ (listener ∷ [])) g.event_listeners,
  bytes_eq_iff t type,
)

erase_listener-others :
    (listener : ℕ) (ids : List ℕ) → erase_listener listener ids ≡ others listener ids
unfolding erase_listener
erase_listener-others listener [] = refl
erase_listener-others listener (id ∷ ids) =
    ground (arith, erase_listener-others listener ids, ℕ_discrete listener id)

remove-table_of :
    (type : Bytes) (listener : ℕ) (g : GlobalScope) (t : Bytes)
    → table_of (remove_event_listener type (some listener) g) t
      ≡ promised_table (removes type listener) (table_of g) t
unfolding remove_event_listener listeners_of
remove-table_of type listener g t = ground (
  arith,
  find_text-put t type (erase_listener listener (listeners_of type g.event_listeners))
      g.event_listeners,
  bytes_eq_iff t type,
  erase_listener-others listener (table_of g t),
)

remove_all-table_of :
    (type : Bytes) (g : GlobalScope) (t : Bytes)
    → table_of (remove_event_listener type none g) t
      ≡ promised_table (removes_all type) (table_of g) t
unfolding remove_event_listener listeners_of
remove_all-table_of type g t =
    ground (arith, find_text-erase t type g.event_listeners, bytes_eq_iff t type)

listeners_of_nil : (t : Bytes) → listeners_of t [] ≡ []
unfolding listeners_of find_text
listeners_of_nil t = refl

no_warnings :
    (listeners : List (Bytes × List ℕ)) (t : Bytes)
    → count_warnings listeners ≡ 0
    → listeners_of t listeners ≡ []
unfolding count_warnings listeners_of find_text
no_warnings [] t h = refl
no_warnings (e ∷ rest) t h = ground (arith, no_warnings rest t, length-zero e.1, h)

verify-table_of :
    (g : GlobalScope) (t : Bytes) → table_of (verify_no_event_handlers_left g) t ≡ table_of g t
unfolding verify_no_event_handlers_left
verify-table_of g t = elim (Bool-cases (ltb 0 (count_warnings g.event_listeners))) [
  | inl some_left ↦ rw (verify_no_event_handlers_left, some_left) refl
  | inr none_left ↦
      rw (verify_no_event_handlers_left, none_left)
        (listeners_of_nil t ∙ sym (no_warnings g.event_listeners t (ground arith)))
]

act-table_of :
    (a : ListenerAction) (g : GlobalScope) (t : Bytes)
    → table_of (act a g) t ≡ promised_table a (table_of g) t
act-table_of (adds type listener) g t = add-table_of type listener g t
act-table_of (removes type listener) g t = remove-table_of type listener g t
act-table_of (removes_all type) g t = remove_all-table_of type g t
act-table_of verifies g t = verify-table_of g t

promised_table-agree :
    (a : ListenerAction) (first second : ListenerTable)
    → ((t : Bytes) → first t ≡ second t)
    → (t : Bytes) → promised_table a first t ≡ promised_table a second t
promised_table-agree (adds type listener) first second h t = rw (h t) refl
promised_table-agree (removes type listener) first second h t = rw (h t) refl
promised_table-agree (removes_all type) first second h t = rw (h t) refl
promised_table-agree verifies first second h t = h t

pub promised_tables-agree :
    (actions : List ListenerAction) (first second : ListenerTable)
    → ((t : Bytes) → first t ≡ second t)
    → (t : Bytes) → promised_tables actions first t ≡ promised_tables actions second t
promised_tables-agree [] first second h = h
promised_tables-agree (a ∷ actions) first second h =
    promised_tables-agree actions (promised_table a first) (promised_table a second)
      (promised_table-agree a first second h)

pub has_event_listeners-table_of :
    (g : GlobalScope) (t : Bytes) → has_event_listeners t g ≡ ltb 0 (length (table_of g t))
unfolding has_event_listeners listeners_of
has_event_listeners-table_of g t = ground arith

pub act_all-table_of :
    (actions : List ListenerAction) (g : GlobalScope) (t : Bytes)
    → table_of (act_all actions g) t ≡ promised_tables actions (table_of g) t
act_all-table_of [] g t = refl
act_all-table_of (a ∷ actions) g t =
    act_all-table_of actions (act a g) t
    ∙ promised_tables-agree actions (table_of (act a g)) (promised_table a (table_of g))
        (act-table_of a g) t

-- After any calls of AddEventListener, RemoveEventListener and VerifyNoEventHandlersLeft, the
-- listeners of every type are those that the abstract table has after the same actions: in the
-- order in which they were added, and what takes away a listener takes away every copy of it from
-- its type and no other. HasEventListeners tells whether there are any.
pub act_all-refines :
    (actions : List ListenerAction) (g : GlobalScope) (t : Bytes)
    → (listeners_of t (act_all actions g).event_listeners ≡ promised_tables actions (table_of g) t)
      × (has_event_listeners t (act_all actions g)
          ≡ ltb 0 (length (promised_tables actions (table_of g) t)))
act_all-refines actions g t = (
  act_all-table_of actions g t,
  has_event_listeners-table_of (act_all actions g) t
      ∙ ap (λ l. ltb 0 (length l)) (act_all-table_of actions g t),
)
