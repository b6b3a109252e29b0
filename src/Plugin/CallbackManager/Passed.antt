-- ===== src/Plugin/CallbackManager/Passed.antt =====
-- Which formats of a call can be passed.
use playgroundjs_plugin.Plugin.CallbackManager.Releases.{all_pushes, is_push}
use playgroundjs_plugin.Plugin.CallbackManager.{
  AmxCall, PublicArgument, format_at, push_params, push_param, has_reference,
}
use playgroundjs_plugin.Common.{
  ℕ, List, Bytes, ◌∷◌, Bool, [], ◌≡◌, ◌++◌, ◌≢◌, suc, true, Option, arith, Bool-cases, some, ◌⊎◌,
  inl, ◌&&◌, none, false, inr, ltb, ◌<◌, ◌==◌, zero, ◌||◌, ◌-◌, refl, ℕ_discrete, length, subst,
  ==_iff,
}

all_pushes-snoc :
    (calls : List AmxCall) (call : AmxCall)
    → all_pushes calls ≡ true
    → is_push call ≡ true
    → all_pushes (calls ++ (call ∷ [])) ≡ true
all_pushes-snoc [] call h e = ground arith
all_pushes-snoc (x ∷ calls) call h e = ground (arith, all_pushes-snoc calls call (ground arith) e)

-- At this position stands what cannot be passed: another letter than 'i', 'f', 's' and 'a', or an
-- 'a' without an 'i' behind it.
abbrev pub CannotPass : Bytes → ℕ → Type 0
CannotPass format i =
    (format_at format i ≢ 105)
    × (format_at format i ≢ 102)
    × (format_at format i ≢ 115)
    × ((format_at format i ≢ 97) ⊎ (format_at format (suc i) ≢ 105))

module _ (format : Bytes) (arguments : ℕ → PublicArgument) where
  -- Only pushes are made, and they are given up where a position below `n` cannot be passed.
  abbrev pub IsPushed : ℕ → Bool × List AmxCall → Type 0
  IsPushed n (complete, calls) =
      (all_pushes calls ≡ true)
      × (((complete ≡ true) × ((i : ℕ) → i < n → ¬ CannotPass format i))
          ⊎ ((complete ≡ false) × ((i : ℕ) × (i < n) × CannotPass format i)))

  -- What a round pushes.
  abbrev IsRound : ℕ → Option (List AmxCall) → Type 0
  IsRound param none = CannotPass format param
  IsRound param (some calls) = (all_pushes calls ≡ true) × (¬ CannotPass format param)

  push_param-IsRound :
      (param : ℕ) (calls : List AmxCall)
      → all_pushes calls ≡ true
      → IsRound param (push_param format arguments param calls)
  unfolding push_param
  push_param-IsRound param calls h =
      elim (Bool-cases (format_at format param == 105 || format_at format param == 102)) [
        | inl value ↦
            rw value (all_pushes-snoc calls _ h refl, λ bad. ground (arith, bad.0, bad.1, value))
        | inr other ↦ elim (Bool-cases (format_at format param == 115)) [
          | inl text ↦
              rw (other, text) (all_pushes-snoc calls _ h refl, λ bad. ground (arith, bad.2, text))
          | inr not_text ↦ elim (Bool-cases (format_at format param == 97)) [
            | inr unknown ↦
                rw (other, not_text, unknown)
                  (
                    (λ e. ground arith),
                    (λ e. ground arith),
                    (λ e. ground arith),
                    inl (λ e. ground arith),
                  )
            | inl array ↦ elim (Bool-cases (format_at format (suc param) == 105)) [
              | inl sized ↦
                  rw (other, not_text, array, sized)
                    (all_pushes-snoc calls _ h refl, λ bad. ground (arith, bad.3, array, sized))
              | inr lone ↦
                  rw (other, not_text, array, lone)
                    (
                      (λ e. ground arith),
                      (λ e. ground arith),
                      (λ e. ground arith),
                      inr (λ e. ground arith),
                    )
            ]
          ]
        ]
      ]

  further-IsPushed :
      (n : ℕ) (r : Bool × List AmxCall) → ¬ CannotPass format n → IsPushed n r → IsPushed (suc n) r
  further-IsPushed n r good (pushes, inl (complete, all)) = (
    pushes,
    inl (
      complete,
      λ i below. elim (ℕ_discrete i n) [
        | yes same ↦ λ bad. good (subst (CannotPass format) same bad)
        | no differs ↦ all i (omega (arith, below, differs))
      ],
    ),
  )
  further-IsPushed n r good (pushes, inr (given_up, (i, below, bad))) =
      (pushes, inr (given_up, (i, omega (arith, below), bad)))

  round-IsPushed :
      (param : ℕ) (calls : List AmxCall) (round : Option (List AmxCall))
      → all_pushes calls ≡ true
      → IsRound param round
      → ((pushed : List AmxCall)
          → all_pushes pushed ≡ true
          → IsPushed param (push_params format arguments param pushed))
      → IsPushed (suc param) (elim round [
        | none ↦ (false, calls)
        | some pushed ↦ push_params format arguments param pushed
      ])
  round-IsPushed param calls none h bad rest = (h, inr (refl, (param, omega arith, bad)))
  round-IsPushed param calls (some pushed) h good rest =
      further-IsPushed param (push_params format arguments param pushed) good.1 (rest pushed good.0)

  pub push_params-IsPushed :
      (n : ℕ) (calls : List AmxCall)
      → all_pushes calls ≡ true
      → IsPushed n (push_params format arguments n calls)
  unfolding push_params
  push_params-IsPushed zero calls h = (h, inl (refl, λ i below. absurd (omega (arith, below))))
  push_params-IsPushed (suc param) calls h =
      elim (Bool-cases
        (ltb 0 param && format_at format param == 105 && format_at format (param - 1) == 97)) [
          | inl size ↦ rw size (
              further-IsPushed param (push_params format arguments param calls)
                (λ bad. ground (arith, bad.0, size)) (push_params-IsPushed param calls h))
          | inr other ↦ rw other (
              round-IsPushed param calls (push_param format arguments param calls) h
                (push_param-IsRound param calls h) (push_params-IsPushed param))
        ]

-- A reference is at some position.
pub has_reference-position :
    (format : Bytes)
    → has_reference format ≡ true
    → (i : ℕ) × (i < length format) × (format_at format i ≡ 114)
unfolding has_reference
has_reference-position [] h = absurd (ground arith)
has_reference-position (c ∷ format) h = elim (Bool-cases (c == 114)) [
  | inl here ↦ (0, omega arith, (==_iff c 114).0 here)
  | inr other ↦
      let found = has_reference-position format (ground arith) in
      (suc (found.0), omega (arith, found.1), found.2)
]

pub reference-CannotPass : (format : Bytes) (i : ℕ) → format_at format i ≡ 114 → CannotPass format i
reference-CannotPass format i h = (
  λ e. omega (arith, e, h),
  λ e. omega (arith, e, h),
  λ e. omega (arith, e, h),
  inl (λ e. omega (arith, e, h)),
)
