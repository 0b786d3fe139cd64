-- ===== src/Correct/Proposed.antt =====
-- crates/core/src/correct/mod.rs: what the rules propose, and that the loop over the rules collects
-- exactly that.
use autosuggest_core.Base.{
  In-append_right, In-append, In-append_left, ◌↔◌, arith, inr, ◌⊎◌, true, false, is_empty,
  Bool-cases, there, ◌∷◌, ◌≡◌, [], In, List, ◌≢◌, ◌||◌, here, inl, ◌∙◌, ◌++◌, refl,
}
use autosuggest_core.Text.Laws.{text_eq_refl, eq_of_text_eq}
use autosuggest_core.Correct.{
  text_eq, Text, rule_commands, normalized_original, push_commands, candidates,
}
use autosuggest_core.Correct.Types.{
  Rule, CorrectContext, CorrectedCommand, ok, Result-cases, CommandResolver, RegexEngine,
}

-- `c` is a command of the rule `r`, none of the discarded ones, with the fields of the rule.
abbrev pub IsCommandOf : Text → Rule → List Text → CorrectedCommand → Type 0
IsCommandOf original r cs c =
    In c.command cs
    × ((c.command ≢ original)
        × ((c.command ≢ [])
            × ((c.rule_id ≡ r.id) × ((c.description ≡ r.description) × (c.priority ≡ r.priority)))))

-- One of the rules evaluates to commands, of which `c` is one.
abbrev pub IsProposed :
    RegexEngine → CorrectContext → CommandResolver → List Rule → CorrectedCommand → Type 0
IsProposed engine ctx resolver rules c =
    (r : Rule) × (In r rules
      × ((cs : List Text) × ((rule_commands engine ctx resolver r ≡ ok cs)
            × IsCommandOf (normalized_original ctx) r cs c)))

-- The record that `push_commands` makes of a command.
abbrev entry : Rule → Text → CorrectedCommand
entry r c = record {
  command = c;
  rule_id = r.id;
  description = r.description;
  priority = r.priority;
}

kept_lem :
    (original c : Text) → (text_eq c original || is_empty c) ≡ false → (c ≢ original) × (c ≢ [])
kept_lem original c h = (
  λ e. absurd (let q = text_eq_refl original in let k = rw e at h in ground arith),
  λ e. absurd (let k = rw e at h in ground arith),
)

discarded_lem :
    (original c : Text) → (text_eq c original || is_empty c) ≡ true → (c ≡ original) ⊎ (c ≡ [])
discarded_lem original [] h = inr refl
discarded_lem original (x ∷ xs) h = inl (eq_of_text_eq (x ∷ xs) original (ground arith))

push_commands-IsCommandOf :
    (original : Text) (r : Rule) (cs : List Text) {c : CorrectedCommand}
    → In c (push_commands original r cs)
    → IsCommandOf original r cs c
unfolding push_commands
push_commands-IsCommandOf original r [] m = elim m [ ]
push_commands-IsCommandOf original r (t ∷ ts) {c} m =
    elim (Bool-cases (text_eq t original || is_empty t)) [
      | inl e ↦ further (push_commands-IsCommandOf original r ts (rw e at m))
      | inr e ↦ found e (push_commands-IsCommandOf original r ts) (rw e at m)
    ]
  where
    further : IsCommandOf original r ts c → IsCommandOf original r (t ∷ ts) c
    further h = (there h.0, h.1)

    found :
        (text_eq t original || is_empty t) ≡ false
        → (In c (push_commands original r ts) → IsCommandOf original r ts c)
        → In c (entry r t ∷ push_commands original r ts)
        → IsCommandOf original r (t ∷ ts) c
    found e ih (here q) =
        let (a, b) = kept_lem original t e in rw q (here refl, (a, (b, (refl, (refl, refl)))))
    found e ih (there n) = further (ih n)

IsCommandOf-push_commands :
    (original : Text) (r : Rule) (cs : List Text) {c : CorrectedCommand}
    → IsCommandOf original r cs c
    → In c (push_commands original r cs)
unfolding push_commands
IsCommandOf-push_commands original r [] h = elim h.0 [ ]
IsCommandOf-push_commands original r (t ∷ ts) {c} (here q, (a, (b, (i, (d, p))))) =
    elim (Bool-cases (text_eq t original || is_empty t)) [
      | inl e ↦ elim (discarded_lem original t e) [
        | inl k ↦ absurd (a (q ∙ k))
        | inr k ↦ absurd (b (q ∙ k))
      ]
      | inr e ↦
          rw e
            (here (λ k. record { command = q k; rule_id = i k; description = d k; priority = p k }))
    ]
IsCommandOf-push_commands original r (t ∷ ts) (there m, h) =
    elim (Bool-cases (text_eq t original || is_empty t)) [
      | inl e ↦ rw e (IsCommandOf-push_commands original r ts (m, h))
      | inr e ↦ rw e (there (IsCommandOf-push_commands original r ts (m, h)))
    ]

module _ (engine : RegexEngine) (ctx : CorrectContext) (resolver : CommandResolver) where
  IsProposed-here :
      (r : Rule) (cs : List Text) (c : CorrectedCommand)
      → rule_commands engine ctx resolver r ≡ ok cs
      → (rs : List Rule) → In c (push_commands (normalized_original ctx) r cs)
      → IsProposed engine ctx resolver (r ∷ rs) c
  IsProposed-here r cs c e rs m =
      (r, (here refl, (cs, (e, push_commands-IsCommandOf (normalized_original ctx) r cs m))))

  IsProposed-later :
      (r : Rule) (rs : List Rule) (c : CorrectedCommand)
      → IsProposed engine ctx resolver rs c
      → IsProposed engine ctx resolver (r ∷ rs) c
  IsProposed-later r rs c (s, (m, w)) = (s, (there m, w))

  IsProposed-In :
      (r : Rule) (rs : List Rule) (cs : List Text) (rest : List CorrectedCommand)
      (c : CorrectedCommand)
      → rule_commands engine ctx resolver r ≡ ok cs
      → (IsProposed engine ctx resolver rs c → In c rest)
      → IsProposed engine ctx resolver (r ∷ rs) c
      → In c (push_commands (normalized_original ctx) r cs ++ rest)
  IsProposed-In r rs cs rest c e ih (s, (here q, (cs', (k, w)))) =
      let j : rule_commands engine ctx resolver r ≡ ok cs' = rw q at k in
      let i : cs' ≡ cs = cc in
      let w' : IsCommandOf (normalized_original ctx) r cs c = rw (q, i) at w in
      In-append_left (push_commands (normalized_original ctx) r cs) rest
        (IsCommandOf-push_commands (normalized_original ctx) r cs w')
  IsProposed-In r rs cs rest c e ih (s, (there m, w)) =
      In-append_right (push_commands (normalized_original ctx) r cs) rest (ih (s, (m, w)))

  In-IsProposed :
      (r : Rule) (rs : List Rule) (cs : List Text) (rest : List CorrectedCommand)
      (c : CorrectedCommand)
      → rule_commands engine ctx resolver r ≡ ok cs
      → (In c rest → IsProposed engine ctx resolver rs c)
      → In c (push_commands (normalized_original ctx) r cs ++ rest)
      → IsProposed engine ctx resolver (r ∷ rs) c
  In-IsProposed r rs cs rest c e ih m =
      elim (In-append (push_commands (normalized_original ctx) r cs) rest m) [
        | inl n ↦ IsProposed-here r cs c e rs n
        | inr n ↦ IsProposed-later r rs c (ih n)
      ]

  -- The loop over the rules succeeded: what the rules propose was collected.
  pub candidates_lem :
      (rules : List Rule) (found : List CorrectedCommand)
      → candidates engine ctx resolver rules ≡ ok found
      → (c : CorrectedCommand) → In c found ↔ IsProposed engine ctx resolver rules c
  unfolding candidates
  candidates_lem [] found h c =
      let e : found ≡ [] = cc in rw e ((λ m. elim m [ ]), (λ p. elim p.1.0 [ ]))
  candidates_lem (r ∷ rs) found h c = elim (Result-cases (rule_commands engine ctx resolver r)) [
    | inr (x, e) ↦ absurd (let k = rw e at h in cc)
    | inl (cs, e) ↦ elim (Result-cases (candidates engine ctx resolver rs)) [
      | inr (x, k) ↦ absurd (let j = rw (e, k) at h in cc)
      | inl (rest, k) ↦
          let j : found ≡ push_commands (normalized_original ctx) r cs ++ rest =
            (let j = rw (e, k) at h in cc) in
          let ih = candidates_lem rs rest k c in
          rw j (In-IsProposed r rs cs rest c e ih.0, IsProposed-In r rs cs rest c e ih.1)
    ]
  ]
