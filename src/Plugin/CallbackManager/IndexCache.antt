-- ===== src/Plugin/CallbackManager/IndexCache.antt =====
-- The cache of the indices of public functions.
use playgroundjs_plugin.Plugin.Values.{minus_one}
use playgroundjs_plugin.Common.{
  Bytes, Option, ◌≡◌, some, some_absurd, ℕ, Option-cases, sym, find_text, find_text_nil, inr, ◌∙◌,
  inl, put_text, List, arith, [], if◌then◌else◌, ◌==◌, none, ap, refl, some_inj, Bool-cases,
  bytes_eq, bytes_eq_iff, find_text-put_same, find_text-put_ne, subst, ◌++◌, ◌∷◌,
}
use playgroundjs_plugin.Plugin.CallbackManager.{
  invoke_public, CallbackManager, Gamemode, AmxCall, PublicArgument, callback_index, call_gamemode,
  call_public, on_gamemode_changed, has_reference,
}

-- Every index in the cache is the one that the gamemode gives.
abbrev pub IsIndexCache : CallbackManager → Type 0
IsIndexCache m =
    (gamemode : Gamemode)
    → m.gamemode ≡ some gamemode
    → (name : Bytes) (index : ℕ) → find_text name m.callback_index_cache ≡ some index
    → gamemode.find_public name ≡ some index

on_gamemode_changed-IsIndexCache :
    (gamemode : Option Gamemode) (m : CallbackManager)
    → IsIndexCache (on_gamemode_changed gamemode m)
unfolding on_gamemode_changed
on_gamemode_changed-IsIndexCache gamemode m g e name index found =
    some_absurd (sym (find_text_nil name) ∙ found)

pub callback_index-cached :
    (gamemode : Gamemode) (name : Bytes) (m : CallbackManager)
    → m.gamemode ≡ some gamemode
    → IsIndexCache m
    → (callback_index gamemode name m).0 ≡ gamemode.find_public name
unfolding callback_index
callback_index-cached gamemode name m e h =
    elim (Option-cases (find_text name m.callback_index_cache)) [
      | inr (index, found) ↦ rw (found, callback_index) (sym (h gamemode e name index found))
      | inl missing ↦ ground (arith, missing)
    ]

put_index-IsIndexCache :
    (gamemode : Gamemode) (name : Bytes) (index : ℕ) (m : CallbackManager)
    → m.gamemode ≡ some gamemode
    → gamemode.find_public name ≡ some index
    → IsIndexCache m
    → IsIndexCache (record m {
      callback_index_cache = put_text name index m.callback_index_cache;
      looked_up = m.looked_up ++ (name ∷ []);
    })
put_index-IsIndexCache gamemode name index m e known h g same other found h2 =
    ap (λ f. f.find_public other) (some_inj (sym same ∙ e))
    ∙ elim (Bool-cases (bytes_eq other name)) [
      | inl equal ↦
          ap gamemode.find_public ((bytes_eq_iff other name).0 equal)
          ∙ known
          ∙ sym (find_text-put_same other name index m.callback_index_cache equal)
          ∙ h2
      | inr differs ↦
          h gamemode e other found
            (sym (find_text-put_ne other name index m.callback_index_cache differs) ∙ h2)
    ]

callback_index-IsIndexCache :
    (gamemode : Gamemode) (name : Bytes) (m : CallbackManager)
    → m.gamemode ≡ some gamemode
    → IsIndexCache m
    → IsIndexCache (callback_index gamemode name m).1
unfolding callback_index
callback_index-IsIndexCache gamemode name m e h =
    elim (Option-cases (find_text name m.callback_index_cache)) [
      | inr (index, found) ↦ rw (found, callback_index) h
      | inl missing ↦ elim (Option-cases (gamemode.find_public name)) [
        | inl unknown ↦ rw (missing, callback_index, unknown) h
        | inr (index, known) ↦
            rw (missing, callback_index, known)
              (put_index-IsIndexCache gamemode name index m e known h)
      ]
    ]

-- What a call gives for an index, or for none.
abbrev pub answer_for : Gamemode → Bytes → (ℕ → PublicArgument) → Option ℕ → ℕ × List AmxCall
answer_for gamemode format arguments none = (minus_one, [])
answer_for gamemode format arguments (some index) =
    if index == minus_one
    then (minus_one, [])
    else if has_reference format
    then (minus_one, [])
    else invoke_public gamemode index format arguments

pub call_gamemode_lem :
    (gamemode : Gamemode) (name format : Bytes) (arguments : ℕ → PublicArgument)
    (m : CallbackManager)
    → call_gamemode gamemode name format arguments m ≡ (
      answer_for gamemode format arguments (callback_index gamemode name m).0,
      (callback_index gamemode name m).1,
    )
unfolding call_gamemode
call_gamemode_lem gamemode name format arguments m = ground arith

-- The manager without its cache.
abbrev pub uncached : CallbackManager → CallbackManager
uncached m = record m { callback_index_cache = [] }

uncached-IsIndexCache : (m : CallbackManager) → IsIndexCache (uncached m)
uncached-IsIndexCache m g e name index found = some_absurd (sym (find_text_nil name) ∙ found)

pub call_public-some :
    (gamemode : Gamemode) (name format : Bytes) (arguments : ℕ → PublicArgument)
    (m : CallbackManager)
    → m.gamemode ≡ some gamemode
    → call_public name format arguments m ≡ call_gamemode gamemode name format arguments m
unfolding call_public
call_public-some gamemode name format arguments m e =
    ap
      (λ g. elim g [
        | none ↦ ((minus_one, []), m)
        | some x ↦ call_gamemode x name format arguments m
      ])
      e

pub call_public-none :
    (name format : Bytes) (arguments : ℕ → PublicArgument) (m : CallbackManager)
    → m.gamemode ≡ none
    → call_public name format arguments m ≡ ((minus_one, []), m)
unfolding call_public
call_public-none name format arguments m e =
    ap
      (λ g. elim g [
        | none ↦ ((minus_one, []), m)
        | some x ↦ call_gamemode x name format arguments m
      ])
      e

-- What a call returns and what it asks of the AMX, the look-up of the function's index apart, do
-- not depend on the indices that the cache
-- holds, as long as they are those of the gamemode, and a call leaves such a cache behind.
pub call_public-uncached :
    (name format : Bytes) (arguments : ℕ → PublicArgument) (m : CallbackManager)
    → IsIndexCache m
    → ((call_public name format arguments m).0 ≡ (call_public name format arguments (uncached m)).0)
      × IsIndexCache (call_public name format arguments m).1
call_public-uncached name format arguments m h = elim (Option-cases m.gamemode) [
  | inl e ↦
      rw
        (
          call_public-none name format arguments m e,
          call_public-none name format arguments (uncached m) e,
        )
        (refl, h)
  | inr (gamemode, e) ↦
      let called =
        call_public-some gamemode name format arguments m e
        ∙ call_gamemode_lem gamemode name format arguments m in
      let called_anew =
        call_public-some gamemode name format arguments (uncached m) e
        ∙ call_gamemode_lem gamemode name format arguments (uncached m) in
      (
        ap (λ r. r.0) called
            ∙ ap (answer_for gamemode format arguments) (
                callback_index-cached gamemode name m e h
                ∙ sym
                    (callback_index-cached gamemode name (uncached m) e (uncached-IsIndexCache m)))
            ∙ sym (ap (λ r. r.0) called_anew),
        subst IsIndexCache (sym (ap (λ r. r.1) called))
            (callback_index-IsIndexCache gamemode name m e h),
      )
]
