-- ===== src/Correct/Ranked.antt =====
-- crates/core/src/correct/mod.rs: the ranked corrections.
use autosuggest_core.Base.{
  In-take, true, In-All, All, take, length, In, AllPairs, ◌≡◌, sym, ◌∙◌, ap, inl, inr, here, there,
  ◌⊎◌, ℕ, List, [], ◌∷◌,
}
use autosuggest_core.Base.Sort.{
  take-keeps, sort_by-In, sort_by-AllPairs, In-sort_by, sort_by, sort_by-IsSortedBy, IsSortedBy,
  not_gt,
}
use autosuggest_core.Base.Order.{IsOrder-IsPreorder}
use autosuggest_core.Correct.{dedup, by_command, by_priority, rank, correct_with_limit, candidates}
use autosuggest_core.Correct.Types.{
  Rule, CorrectContext, CorrectedCommand, ok, Result-cases, CommandResolver, RegexEngine,
}
use autosuggest_core.Correct.Proposed.{IsProposed, candidates_lem}
use autosuggest_core.Correct.Dedup.{
  Differ, Outranks, by_command-Outranks, Covers, by_command-IsOrder, by_priority-IsOrder, In-dedup,
  dedup-Covers, dedup-Differ,
}

module _ (cs : List CorrectedCommand) where
  sorted_lem : IsSortedBy by_command (sort_by by_command cs)
  sorted_lem = sort_by-IsSortedBy (IsOrder-IsPreorder by_command-IsOrder) cs

  rank-IsSortedBy : IsSortedBy by_priority (rank cs)
  unfolding rank
  rank-IsSortedBy =
      sort_by-IsSortedBy (IsOrder-IsPreorder by_priority-IsOrder) (dedup (sort_by by_command cs))

  rank-Differ : AllPairs Differ (rank cs)
  unfolding rank
  rank-Differ =
      sort_by-AllPairs by_priority Differ (dedup (sort_by by_command cs)) (λ a b h e. h (sym e))
        (dedup-Differ (sort_by by_command cs) sorted_lem)

  In-rank : (c : CorrectedCommand) → In c (rank cs) → In c cs
  unfolding rank
  In-rank c m =
      In-sort_by by_command cs (
        In-dedup (sort_by by_command cs) (In-sort_by by_priority (dedup (sort_by by_command cs)) m))

  rank-Covers : (c : CorrectedCommand) → In c cs → Covers (rank cs) c
  unfolding rank
  rank-Covers c m =
      let (k, (n, h)) =
        dedup-Covers c (sort_by by_command cs) sorted_lem (sort_by-In by_command cs m) in
      (k, (sort_by-In by_priority (dedup (sort_by by_command cs)) n, h))

-- Something of `l` has the command of `c`, of an origin that outranks it or is its own.
abbrev pub Represents : List CorrectedCommand → CorrectedCommand → Type 0
Represents l c = (k : CorrectedCommand) × (In k l × ((k.command ≡ c.command) × Outranks k c))

-- Two corrections of the same command in a list without duplicates are the same.
same_of_Differ :
    (cs : List CorrectedCommand) {a b : CorrectedCommand}
    → AllPairs Differ cs
    → In a cs
    → In b cs
    → a.command ≡ b.command
    → a ≡ b
same_of_Differ [] p m n e = elim m [ ]
same_of_Differ (c ∷ cs) p (here q) (here r) e = q ∙ sym r
same_of_Differ (c ∷ cs) p (here q) (there n) e =
    absurd (In-All (Differ c) cs p.0 n (ap (λ x. x.command) (sym q) ∙ e))
same_of_Differ (c ∷ cs) p (there m) (here r) e =
    absurd (In-All (Differ c) cs p.0 m (ap (λ x. x.command) (sym r) ∙ sym e))
same_of_Differ (c ∷ cs) p (there m) (there n) e = same_of_Differ cs p.1 m n e

module _ (engine : RegexEngine) (ctx : CorrectContext) (rules : List Rule)
    (resolver : CommandResolver) (limit : ℕ) (out : List CorrectedCommand)
    (h : correct_with_limit engine ctx rules resolver limit ≡ ok out) where
  found_lem :
      (found : List CorrectedCommand) × ((candidates engine ctx resolver rules ≡ ok found)
        × (out ≡ take limit (rank found)))
  unfolding correct_with_limit
  found_lem = elim (Result-cases (candidates engine ctx resolver rules)) [
    | inl (found, e) ↦ (found, (e, let k = rw e at h in cc))
    | inr (x, e) ↦ absurd (let k = rw e at h in cc)
  ]

  -- Each correction is proposed by a rule: it is a command of what the rule evaluates to, not empty
  -- and not the words of the script joined by single spaces. It has the highest priority of all the proposals of its command, and
  -- among those no rule id is less than its own.
  pub correct_with_limit-IsProposed :
      (c : CorrectedCommand)
      → In c out
      → IsProposed engine ctx resolver rules c
        × ((d : CorrectedCommand)
            → IsProposed engine ctx resolver rules d
            → d.command ≡ c.command
            → Outranks c d)
  correct_with_limit-IsProposed c m =
      let (found, (e, q)) = found_lem in
      let n : In c (rank found) = In-take limit (rank found) (rw q at m) in
      (
        (candidates_lem engine ctx resolver rules found e c).0 (In-rank found c n),
        λ d p i.
            let (k, (j, (r, b))) =
              rank-Covers found d ((candidates_lem engine ctx resolver rules found e d).1 p) in
            let s : k ≡ c = same_of_Differ (rank found) (rank-Differ found) j n (r ∙ i) in
            by_command-Outranks c d (rw s at r) (rw s at b),
      )

  -- For every proposal, a correction of its command is returned, of the same origin or one that
  -- outranks it; or `limit` corrections are returned, none of which ranks after a proposal of its
  -- command.
  pub correct_with_limit-Represents :
      (d : CorrectedCommand)
      → IsProposed engine ctx resolver rules d
      → Represents out d
        ⊎ ((length out ≡ limit)
            × ((k : CorrectedCommand) × (IsProposed engine ctx resolver rules k
                  × ((k.command ≡ d.command) × All (λ c. not_gt (by_priority c k) ≡ true) out))))
  correct_with_limit-Represents d p =
      let (found, (e, q)) = found_lem in
      let (k, (j, (r, b))) =
        rank-Covers found d ((candidates_lem engine ctx resolver rules found e d).1 p) in
      let p' = (candidates_lem engine ctx resolver rules found e k).0 (In-rank found k j) in
      rw q (elim (take-keeps by_priority limit (rank found) (rank-IsSortedBy found) j) [
        | inl n ↦ inl (k, (n, (r, by_command-Outranks k d r b)))
        | inr (l, a) ↦ inr (l, (k, (p', (r, a))))
      ])
