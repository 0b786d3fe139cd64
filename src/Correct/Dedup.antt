-- ===== src/Correct/Dedup.antt =====
-- crates/core/src/correct/mod.rs: the orders of the candidates, and the removal of duplicates.
use autosuggest_core.Base.{
  arith, compare, ◌<◌, ℕ, ◌⊎◌, false, AllPairs, All-map, Bool-cases, All, ◌∷◌, true, In, List, ◌≢◌,
  ◌≡◌, refl, sym, inl, inr, here, there, [], Ordering,
}
use autosuggest_core.Base.Sort.{then_with, IsSortedBy, not_gt}
use autosuggest_core.Correct.{text_cmp, dedup_after, dedup, by_command, by_priority}
use autosuggest_core.Base.Order.{IsOrder, then_with-IsOrder, IsOrder-IsPreorder, descending-IsOrder}
use autosuggest_core.Text.{Text, text_eq, text_cmp}
use autosuggest_core.Text.Laws.{
  text_eq_refl, eq_of_text_eq, text_cmp_flip, text_cmp_trans, text_cmp_refl, eq_of_text_cmp,
}
use autosuggest_core.Correct.Types.{CorrectedCommand}

text_cmp-IsOrder {ℓ} : {A : Type ℓ} (f : A → Text) → IsOrder (λ (a b : A). text_cmp (f a) (f b))
text_cmp-IsOrder f = record {
  flip = λ a b. text_cmp_flip (f a) (f b);
  trans = λ a b c. text_cmp_trans (f a) (f b) (f c);
}

pub by_command-IsOrder : IsOrder by_command
unfolding by_command
by_command-IsOrder =
    then_with-IsOrder (text_cmp-IsOrder (λ c. c.command))
      (then_with-IsOrder (descending-IsOrder (λ c. c.priority)) (text_cmp-IsOrder (λ c. c.rule_id)))

pub by_priority-IsOrder : IsOrder by_priority
unfolding by_priority
by_priority-IsOrder =
    then_with-IsOrder (descending-IsOrder (λ c. c.priority))
      (then_with-IsOrder (text_cmp-IsOrder (λ c. c.rule_id)) (text_cmp-IsOrder (λ c. c.command)))

-- Two corrections are of different commands.
abbrev pub Differ : CorrectedCommand → CorrectedCommand → Type 0
Differ a b = a.command ≢ b.command

In-dedup_after :
    {c : CorrectedCommand} (kept : CorrectedCommand) (cs : List CorrectedCommand)
    → In c (dedup_after kept cs)
    → In c cs
unfolding dedup_after
In-dedup_after kept [] m = m
In-dedup_after {c} kept (d ∷ ds) m = elim (Bool-cases (text_eq d.command kept.command)) [
  | inl e ↦ there (In-dedup_after kept ds (rw e at m))
  | inr e ↦ step (In-dedup_after d ds) (rw e at m)
]
  where
    step : (In c (dedup_after d ds) → In c ds) → In c (d ∷ dedup_after d ds) → In c (d ∷ ds)
    step ih (here q) = here q
    step ih (there n) = there (ih n)

pub In-dedup : {c : CorrectedCommand} (cs : List CorrectedCommand) → In c (dedup cs) → In c cs
unfolding dedup
In-dedup [] m = m
In-dedup (d ∷ ds) (here q) = here q
In-dedup (d ∷ ds) (there m) = there (In-dedup_after d ds m)

-- Something of `l` stands for `c`: its command, with an origin that ranks at least as high.
abbrev pub Covers : List CorrectedCommand → CorrectedCommand → Type 0
Covers l c =
    (k : CorrectedCommand) × (In k l × ((k.command ≡ c.command) × (not_gt (by_command k c) ≡ true)))

by_command_refl : (c : CorrectedCommand) → not_gt (by_command c c) ≡ true
by_command_refl c = elim (Bool-cases (not_gt (by_command c c))) [
  | inl e ↦ e
  | inr e ↦ (IsOrder-IsPreorder by_command-IsOrder).total c c e
]

Covers-self :
    {c : CorrectedCommand} (kept : CorrectedCommand) (l : List CorrectedCommand)
    → c ≡ kept
    → Covers (kept ∷ l) c
Covers-self {c} kept l q = rw q (kept, (here refl, (refl, by_command_refl kept)))

Covers-later :
    (c kept : CorrectedCommand) (l : List CorrectedCommand) → Covers l c → Covers (kept ∷ l) c
Covers-later c kept l (k, (m, h)) = (k, (there m, h))

dedup_after-Covers :
    (c kept : CorrectedCommand) (cs : List CorrectedCommand)
    → IsSortedBy by_command (kept ∷ cs)
    → In c cs
    → Covers (kept ∷ dedup_after kept cs) c
unfolding dedup_after
dedup_after-Covers c kept [] s m = elim m [ ]
dedup_after-Covers c kept (d ∷ ds) s (here q) = elim (Bool-cases (text_eq d.command kept.command)) [
  | inl e ↦ rw (e, q) (kept, (here refl, (sym (eq_of_text_eq d.command kept.command e), s.0.0)))
  | inr e ↦ rw e (Covers-later c kept (d ∷ dedup_after d ds) (Covers-self d (dedup_after d ds) q))
]
dedup_after-Covers c kept (d ∷ ds) s (there m) =
    elim (Bool-cases (text_eq d.command kept.command)) [
      | inl e ↦ rw e (dedup_after-Covers c kept ds (s.0.1, s.1.1) m)
      | inr e ↦ rw e (Covers-later c kept (d ∷ dedup_after d ds) (dedup_after-Covers c d ds s.1 m))
    ]

pub dedup-Covers :
    (c : CorrectedCommand) (cs : List CorrectedCommand)
    → IsSortedBy by_command cs
    → In c cs
    → Covers (dedup cs) c
unfolding dedup
dedup-Covers c [] s m = elim m [ ]
dedup-Covers c (d ∷ ds) s (here q) = Covers-self d (dedup_after d ds) q
dedup-Covers c (d ∷ ds) s (there m) = dedup_after-Covers c d ds s m

then_with-not_gt : (x u : Ordering) → not_gt (then_with x u) ≡ true → not_gt x ≡ true
then_with-not_gt Ordering.lt u h = refl
then_with-not_gt Ordering.eq u h = refl
then_with-not_gt Ordering.gt u h = h

less_of_differ :
    (s t : Text) → not_gt (text_cmp s t) ≡ true → text_eq t s ≡ false → text_cmp s t ≡ Ordering.lt
less_of_differ s t h e = step (text_cmp s t) refl h
  where
    step : (o : Ordering) → text_cmp s t ≡ o → not_gt o ≡ true → text_cmp s t ≡ Ordering.lt
    step Ordering.lt k i = k
    step Ordering.eq k i = absurd (
        let q : t ≡ s = sym (eq_of_text_cmp s t k) in
        let j = text_eq_refl s in let e' = rw q at e in cc)
    step Ordering.gt k i = absurd (cc)

text_lt_trans :
    (s t u : Text)
    → text_cmp s t ≡ Ordering.lt
    → text_cmp t u ≡ Ordering.lt
    → text_cmp s u ≡ Ordering.lt
text_lt_trans s t u h k =
    less_of_differ s u (text_cmp_trans s t u (rw h) (rw k)) (differ (Bool-cases (text_eq u s)))
  where
    differ : (text_eq u s ≡ true) ⊎ (text_eq u s ≡ false) → text_eq u s ≡ false
    differ (inr e) = e
    differ (inl e) = absurd (
        let q : u ≡ s = eq_of_text_eq u s e in
        let k' = rw q at k in let f = text_cmp_flip s t in let f' = rw h at f in cc)

command_less :
    (kept d : CorrectedCommand)
    → not_gt (by_command kept d) ≡ true
    → text_eq d.command kept.command ≡ false
    → text_cmp kept.command d.command ≡ Ordering.lt
unfolding by_command
command_less kept d h e =
    less_of_differ kept.command d.command (then_with-not_gt (text_cmp kept.command d.command) _ h) e

-- Commands strictly ascend after `kept`.
dedup_after-Ascends :
    (kept : CorrectedCommand) (cs : List CorrectedCommand)
    → IsSortedBy by_command (kept ∷ cs)
    → All (λ d. text_cmp kept.command d.command ≡ Ordering.lt) (dedup_after kept cs)
unfolding dedup_after
dedup_after-Ascends kept [] s = tt
dedup_after-Ascends kept (d ∷ ds) s = elim (Bool-cases (text_eq d.command kept.command)) [
  | inl e ↦ rw e (dedup_after-Ascends kept ds (s.0.1, s.1.1))
  | inr e ↦
      let less = command_less kept d s.0.0 e in
      rw e (
        less,
        All-map _ _ (dedup_after d ds)
            (λ x h. text_lt_trans kept.command d.command x.command less h)
            (dedup_after-Ascends d ds s.1),
      )
]

Differ-of_less : (a b : CorrectedCommand) → text_cmp a.command b.command ≡ Ordering.lt → Differ a b
Differ-of_less a b h e = absurd (let k = text_cmp_refl b.command in let h' = rw e at h in cc)

dedup_after-Differ :
    (kept : CorrectedCommand) (cs : List CorrectedCommand)
    → IsSortedBy by_command (kept ∷ cs)
    → AllPairs Differ (dedup_after kept cs)
unfolding dedup_after
dedup_after-Differ kept [] s = tt
dedup_after-Differ kept (d ∷ ds) s = elim (Bool-cases (text_eq d.command kept.command)) [
  | inl e ↦ rw e (dedup_after-Differ kept ds (s.0.1, s.1.1))
  | inr e ↦ rw e (
    All-map _ _ (dedup_after d ds) (Differ-of_less d) (dedup_after-Ascends d ds s.1),
    dedup_after-Differ d ds s.1,
  )
]

pub dedup-Differ :
    (cs : List CorrectedCommand) → IsSortedBy by_command cs → AllPairs Differ (dedup cs)
unfolding dedup
dedup-Differ [] s = tt
dedup-Differ (d ∷ ds) s = (
  All-map _ _ (dedup_after d ds) (Differ-of_less d) (dedup_after-Ascends d ds s),
  dedup_after-Differ d ds s,
)

-- `c` has a higher priority than `d`, or the same priority and no greater rule id.
abbrev pub Outranks : CorrectedCommand → CorrectedCommand → Type 0
Outranks c d =
    (d.priority < c.priority)
    ⊎ ((d.priority ≡ c.priority) × (not_gt (text_cmp c.rule_id d.rule_id) ≡ true))

by_origin-Outranks :
    (p q : ℕ) (o : Ordering)
    → not_gt (then_with (compare q p) o) ≡ true
    → (q < p) ⊎ ((q ≡ p) × (not_gt o ≡ true))
by_origin-Outranks p q o h = ground arith

pub by_command-Outranks :
    (c d : CorrectedCommand) → c.command ≡ d.command → not_gt (by_command c d) ≡ true → Outranks c d
unfolding by_command
by_command-Outranks c d e h =
    by_origin-Outranks c.priority d.priority (text_cmp c.rule_id d.rule_id)
      (rw (e, text_cmp_refl d.command) at h)
