-- ===== src/Correct/Errors.antt =====
-- crates/core/src/correct/mod.rs: the errors of the engine.
use autosuggest_core.Base.{◌≡◌, refl, ◌∙◌, ap, ◌↔◌, inl, inr, List, [], ◌∷◌, ℕ}
use autosuggest_core.Text.{Text}
use autosuggest_core.Correct.{rule_commands, candidates, correct_with_limit}
use autosuggest_core.Correct.Types.{
  Rule, CorrectContext, CorrectError, ok, err, Result-cases, CommandResolver, RegexEngine,
}

module _ (engine : RegexEngine) (ctx : CorrectContext) (resolver : CommandResolver) where
  -- The first rule that fails does so with `e`.
  pub data FailsFirst (e : CorrectError) : List Rule → Type 0 where
    fails_now :
        {r : Rule} {rs : List Rule}
        → rule_commands engine ctx resolver r ≡ err e
        → FailsFirst e (r ∷ rs)
    fails_later :
        {r : Rule} {rs : List Rule} {cs : List Text}
        → rule_commands engine ctx resolver r ≡ ok cs
        → FailsFirst e rs
        → FailsFirst e (r ∷ rs)

  candidates-FailsFirst :
      (rules : List Rule) (e : CorrectError)
      → candidates engine ctx resolver rules ≡ err e
      → FailsFirst e rules
  unfolding candidates
  candidates-FailsFirst [] e h = absurd (cc)
  candidates-FailsFirst (r ∷ rs) e h = elim (Result-cases (rule_commands engine ctx resolver r)) [
    | inr (x, i) ↦ fails_now (let q : x ≡ e = (let k = rw i at h in cc) in i ∙ ap err q)
    | inl (cs, i) ↦ elim (Result-cases (candidates engine ctx resolver rs)) [
      | inl (rest, j) ↦ absurd (let k = rw (i, j) at h in cc)
      | inr (x, j) ↦ fails_later i (
          candidates-FailsFirst rs e
            (let q : x ≡ e = (let k = rw (i, j) at h in cc) in j ∙ ap err q))
    ]
  ]

  FailsFirst-candidates :
      (rules : List Rule) (e : CorrectError)
      → FailsFirst e rules
      → candidates engine ctx resolver rules ≡ err e
  unfolding candidates
  FailsFirst-candidates [] e h = elim h [ ]
  FailsFirst-candidates (r ∷ rs) e (fails_now i) = rw i refl
  FailsFirst-candidates (r ∷ rs) e (fails_later i f) = rw (i, FailsFirst-candidates rs e f) refl

  -- The engine returns an error exactly when a rule fails, and then it is the error of the first one
  -- that does.
  pub correct_with_limit-FailsFirst :
      (rules : List Rule) (limit : ℕ) (e : CorrectError)
      → (correct_with_limit engine ctx rules resolver limit ≡ err e) ↔ FailsFirst e rules
  unfolding correct_with_limit
  correct_with_limit-FailsFirst rules limit e = (
    λ h. candidates-FailsFirst rules e (elim (Result-cases (candidates engine ctx resolver rules)) [
      | inl (found, i) ↦ absurd (let k = rw i at h in cc)
      | inr (x, i) ↦ (let q : x ≡ e = (let k = rw i at h in cc) in i ∙ ap err q)
    ]),
    λ f. rw (FailsFirst-candidates rules e f) refl,
  )
