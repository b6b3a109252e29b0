-- ===== src/Bindings/Events/TypeCache.antt =====
-- The cache of event types of src/playground/bindings/event.cc.
use playgroundjs_plugin.Common.{
  [], Bytes, List, find_text, put_text, ◌≡◌, some_absurd, sym, Option-cases, some, arith,
  find_text_nil, find_text-put, inl, inr, bytes_eq_iff, ◌∙◌, refl, none, find_text-put_self,
}
use playgroundjs_plugin.Bindings.Events.{to_event_type, create_event_type}

-- The cache holds event types of the callbacks under which they stand.
abbrev pub IsTypeCache : List (Bytes × Bytes) → Type 0
IsTypeCache cache =
    (callback type : Bytes)
    → find_text callback cache ≡ some type
    → type ≡ create_event_type callback

pub IsTypeCache-nil : IsTypeCache []
IsTypeCache-nil callback type e = some_absurd (sym (find_text_nil callback) ∙ e)

put_text-IsTypeCache :
    (cache : List (Bytes × Bytes)) (callback : Bytes)
    → IsTypeCache cache
    → IsTypeCache (put_text callback (create_event_type callback) cache)
put_text-IsTypeCache cache callback h other type e = ground (
  arith,
  h other type,
  e,
  find_text-put other callback (create_event_type callback) cache,
  bytes_eq_iff other callback,
)

to_event_type-found :
    (callback type : Bytes) (cache : List (Bytes × Bytes))
    → find_text callback cache ≡ some type
    → to_event_type callback cache ≡ (type, cache)
unfolding to_event_type
to_event_type-found callback type cache e = rw (e, to_event_type) refl

to_event_type-missing :
    (callback : Bytes) (cache : List (Bytes × Bytes))
    → find_text callback cache ≡ none
    → to_event_type callback cache
      ≡ (create_event_type callback, put_text callback (create_event_type callback) cache)
unfolding to_event_type
to_event_type-missing callback cache e =
    rw (e, to_event_type, find_text-put_self callback (create_event_type callback) cache) refl

-- With the cache that earlier calls have left, the type of the events of a callback is the one
-- that `CreateEventType` makes, and the cache that it leaves is such a cache.
pub to_event_type-IsTypeCache :
    (callback : Bytes) (cache : List (Bytes × Bytes))
    → IsTypeCache cache
    → ((to_event_type callback cache).0 ≡ create_event_type callback)
      × IsTypeCache (to_event_type callback cache).1
to_event_type-IsTypeCache callback cache h = elim (Option-cases (find_text callback cache)) [
  | inl e ↦
      rw (to_event_type-missing callback cache e) (refl, put_text-IsTypeCache cache callback h)
  | inr (type, e) ↦ rw (to_event_type-found callback type cache e) (h callback type e, h)
]
