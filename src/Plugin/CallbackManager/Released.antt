-- ===== src/Plugin/CallbackManager/Released.antt =====
-- What the AMX is left with after a call of a public function, whatever its format is.
use playgroundjs_plugin.Plugin.CallbackManager.Releases.{
  all_pushes, released_from, releases-count, count_executed, count_allocated,
}
use playgroundjs_plugin.Plugin.CallbackManager.Passed.{
  push_params-IsPushed, has_reference-position, CannotPass, reference-CannotPass,
}
use playgroundjs_plugin.Plugin.CallbackManager.IndexCache.{
  IsIndexCache, answer_for, call_public-none, call_public-some, call_gamemode_lem,
  callback_index-cached,
}
use playgroundjs_plugin.Plugin.Values.{minus_one}
use playgroundjs_plugin.Plugin.CallbackManager.{
  AmxCall, PublicArgument, push_params, executed, ignore_begins, has_reference, Gamemode,
  CallbackManager, ignore_ends, invoke_public, call_public,
}
use playgroundjs_plugin.Common.{
  ℕ, List, Bytes, ◌∷◌, [], ◌≡◌, ◌++◌, true, Option, Bool-cases, some, ◌⊎◌, inl, ap, none, inr, ◌<◌,
  ◌==◌, refl, ◌∙◌, length, subst, ==_iff, Option-cases, sym,
}

-- Why a call cannot be made: there is no gamemode, or it has no such function or gives it the index
-- -1, or something in the format cannot be passed.
abbrev pub CannotCall : CallbackManager → Bytes → Bytes → Type 0
CannotCall m name format =
    (m.gamemode ≡ none)
    ⊎ (((gamemode : Gamemode) × (m.gamemode ≡ some gamemode)
          × ((gamemode.find_public name ≡ none) ⊎ (gamemode.find_public name ≡ some minus_one)))
        ⊎ ((i : ℕ) × (i < length format) × CannotPass format i))

-- A call pushes something, then executes the function of that name or not, and releases every text
-- and array that it has pushed, once each.
abbrev pub IsReleased : CallbackManager → Bytes → Bytes → ℕ × List AmxCall → Type 0
IsReleased m name format result =
    (pushes : List AmxCall) × (all_pushes pushes ≡ true)
    × ((CannotCall m name format
          × (result ≡ (minus_one, pushes ++ released_from 0 (count_allocated pushes))))
        ⊎ ((gamemode : Gamemode) × (index : ℕ) × (m.gamemode ≡ some gamemode)
            × (gamemode.find_public name ≡ some index)
            × ((i : ℕ) → i < length format → ¬ CannotPass format i)
            × (result ≡ (
              elim (gamemode.exec (pushes ++ (ignore_begins ∷ executed index ∷ []))) [
                | none ↦ minus_one
                | some value ↦ value
              ],
              (pushes ++ (ignore_begins ∷ executed index ∷ []))
                  ++ (ignore_ends ∷ released_from 0 (count_allocated pushes)),
            ))))

module _ (gamemode : Gamemode) (name format : Bytes) (arguments : ℕ → PublicArgument)
    (m : CallbackManager) (some_gamemode : m.gamemode ≡ some gamemode) where
  invoke_public-IsReleased :
      (index : ℕ)
      → gamemode.find_public name ≡ some index
      → IsReleased m name format (invoke_public gamemode index format arguments)
  unfolding invoke_public
  invoke_public-IsReleased index found =
      let run = push_params format arguments (length format) [] in
      let pushed = push_params-IsPushed format arguments (length format) [] refl in
      elim pushed.1 [
        | inl (complete, all) ↦ (
          run.1,
          pushed.0,
          inr (
            gamemode,
            index,
            some_gamemode,
            found,
            all,
            rw
                (
                  complete,
                  releases-count 0 (run.1 ++ (ignore_begins ∷ executed index ∷ [])),
                  count_executed run.1 index,
                )
                refl,
          ),
        )
        | inr (given_up, bad) ↦
            (run.1, pushed.0, inl (inr (inr bad), rw (given_up, releases-count 0 run.1) refl))
      ]

  refused-IsReleased : CannotCall m name format → IsReleased m name format (minus_one, [])
  refused-IsReleased why = ([], refl, inl (why, refl))

  answer_for-IsReleased :
      (index : Option ℕ)
      → gamemode.find_public name ≡ index
      → IsReleased m name format (answer_for gamemode format arguments index)
  answer_for-IsReleased none unknown =
      refused-IsReleased (inr (inl (gamemode, some_gamemode, inl unknown)))
  answer_for-IsReleased (some index) found = elim (Bool-cases (index == minus_one)) [
    | inl negative ↦ rw negative (
        refused-IsReleased (
          inr (
            inl (
              gamemode,
              some_gamemode,
              inr (found ∙ ap some ((==_iff index minus_one).0 negative)),
            ))))
    | inr proper ↦ elim (Bool-cases (has_reference format)) [
      | inl reference ↦
          let place = has_reference-position format reference in
          rw (proper, reference)
            (refused-IsReleased
              (inr (inr (place.0, place.1, reference-CannotPass format place.0 place.2))))
      | inr plain ↦ rw (proper, plain) (invoke_public-IsReleased index found)
    ]
  ]

-- Whatever the format is, a call leaves nothing on the heap of the AMX that it put there: behind its
-- pushes and, where it is made, the execution of the function, each text and array pushed is
-- released, once. The call is not made and returns -1 only if there is no gamemode, the gamemode
-- has no function of that name or gives it the index -1, or a letter of the format is not 'i', 'f',
-- 's' or an 'a' that an 'i' follows; and it is made only if no letter is. The cache holds indices of
-- the gamemode.
pub call_public-IsReleased :
    (name format : Bytes) (arguments : ℕ → PublicArgument) (m : CallbackManager)
    → IsIndexCache m
    → IsReleased m name format (call_public name format arguments m).0
call_public-IsReleased name format arguments m h = elim (Option-cases m.gamemode) [
  | inl e ↦ rw (call_public-none name format arguments m e) ([], refl, inl (inl e, refl))
  | inr (gamemode, e) ↦
      subst (IsReleased m name format)
        (sym (
          ap (λ r. r.0)
            (call_public-some gamemode name format arguments m e
              ∙ call_gamemode_lem gamemode name format arguments m)
          ∙ ap (answer_for gamemode format arguments) (callback_index-cached gamemode name m e h)))
        (answer_for-IsReleased gamemode name format arguments m e (gamemode.find_public name) refl)
]
