-- ===== src/History/Best.antt =====
-- Which candidate `autosuggest` takes.
use autosuggest_core.History.{
  command_of, HistoryWindow, Candidate, cwd_match, enumerate, max_from, max_by, compare_candidates,
  matching, autosuggest, distinct_recent_first,
}
use autosuggest_core.Base.{
  ap₂, unwrap_or, ℕ, zero, suc, ◌≤◌, ◌<◌, ◌≡◌, refl, ◌∙◌, Bool, inl, inr, List, [], ◌∷◌, Option,
  none, some, arith, if◌then◌else◌, find, filter, Bool-cases, ◌&&◌, Ordering,
}
use autosuggest_core.Text.{Text, starts_with}

-- Of two candidates the one in the requested directory is better, and then the more recent one.
compare_candidates_lt :
    (cwd : Option Text) (i j : ℕ) (a b : Candidate)
    → i < j
    → compare_candidates cwd (i, a) (j, b) ≡ (
        if cwd_match cwd a.cwd
        then Ordering.gt
        else if cwd_match cwd b.cwd
        then Ordering.lt
        else Ordering.gt)
unfolding compare_candidates
compare_candidates_lt cwd zero zero a b h = absurd (omega arith)
compare_candidates_lt cwd zero (suc j) a b h = ground arith
compare_candidates_lt cwd (suc i) zero a b h = absurd (omega arith)
compare_candidates_lt cwd (suc i) (suc j) a b h = ground arith

-- The indices of the list ascend from `i` on.
data Ascends : ℕ → List (ℕ × Candidate) → Type 0 where
  stop : {i : ℕ} → Ascends i []
  next :
      {i j : ℕ} (c : Candidate) {rest : List (ℕ × Candidate)}
      → i ≤ j
      → Ascends (suc j) rest
      → Ascends i ((j, c) ∷ rest)

Ascends-le : {i j : ℕ} (l : List (ℕ × Candidate)) → i ≤ j → Ascends j l → Ascends i l
Ascends-le l h stop = stop
Ascends-le l h (next c k r) = next c (omega arith) r

-- The first pair whose candidate stands in the requested directory.
abbrev is_here : Option Text → ℕ × Candidate → Bool
is_here cwd q = cwd_match cwd q.1.cwd

module _ (cwd : Option Text) (p q : ℕ × Candidate) (rest : List (ℕ × Candidate)) where
  max_from_keep :
      compare_candidates cwd p q ≡ Ordering.gt
      → max_from (compare_candidates cwd) p (q ∷ rest) ≡ max_from (compare_candidates cwd) p rest
  unfolding max_from
  max_from_keep e = rw (e, max_from)

  max_from_move :
      compare_candidates cwd p q ≡ Ordering.lt
      → max_from (compare_candidates cwd) p (q ∷ rest) ≡ max_from (compare_candidates cwd) q rest
  unfolding max_from
  max_from_move e = rw (e, max_from)

Ascends-tail :
    {i j : ℕ} {c : Candidate} {rest : List (ℕ × Candidate)}
    → Ascends i ((j, c) ∷ rest)
    → (i ≤ j) × Ascends (suc j) rest
Ascends-tail (next _ k r) = (k, r)

-- The best of a list whose indices ascend: the first in the requested directory, or the first of all.
max_from-first :
    (cwd : Option Text) (i : ℕ) (c : Candidate) (l : List (ℕ × Candidate))
    → Ascends (suc i) l
    → max_from (compare_candidates cwd) (i, c) l
      ≡ (if cwd_match cwd c.cwd then (i, c) else unwrap_or (find (is_here cwd) l) (i, c))
max_from-first cwd i c [] h = unfold max_from in ground arith
max_from-first cwd i c ((j, x) ∷ rest) h =
    let (k, r) = Ascends-tail h in
    let order = compare_candidates_lt cwd i j c x k in
    elim (Bool-cases (cwd_match cwd c.cwd)) [
      | inl e ↦
          max_from_keep cwd (i, c) (j, x) rest (order ∙ rw e)
          ∙ max_from-first cwd i c rest (Ascends-le rest (omega arith) r)
          ∙ rw e
      | inr e ↦ elim (Bool-cases (cwd_match cwd x.cwd)) [
        | inl f ↦
            max_from_move cwd (i, c) (j, x) rest (order ∙ rw (e, f))
            ∙ max_from-first cwd j x rest r
            ∙ rw (e, f)
        | inr f ↦
            max_from_keep cwd (i, c) (j, x) rest (order ∙ rw (e, f))
            ∙ max_from-first cwd i c rest (Ascends-le rest (omega arith) r)
            ∙ rw (e, f)
      ]
    ]

enumerate-Ascends : (i : ℕ) (cs : List Candidate) → Ascends i (enumerate i cs)
unfolding enumerate
enumerate-Ascends i [] = stop
enumerate-Ascends i (c ∷ cs) = next c (omega arith) (enumerate-Ascends (suc i) cs)

filter-Ascends :
    (p : ℕ × Candidate → Bool) {i : ℕ} (l : List (ℕ × Candidate))
    → Ascends i l
    → Ascends i (filter p l)
filter-Ascends p l stop = stop
filter-Ascends p l (next {j} c {rest} k r) = elim (Bool-cases (p (j, c))) [
  | inl e ↦ rw e (next c k (filter-Ascends p rest r))
  | inr e ↦ rw e (Ascends-le _ (omega arith) (filter-Ascends p rest r))
]

abbrev pub pick : Option Candidate → Option Candidate → Option Text
pick (some c) o = some c.command
pick none (some c) = some c.command
pick none none = none

abbrev second : Option (ℕ × Candidate) → Option Candidate
second none = none
second (some (i, c)) = some c

abbrev first : List (ℕ × Candidate) → Option Candidate
first [] = none
first ((i, c) ∷ rest) = some c

-- The command of the first candidate in the requested directory that satisfies `p`, or else of the
-- first that satisfies `p`.
unfoldable pub first_choice : Option Text → (Candidate → Bool) → List Candidate → Option Text
first_choice cwd p cs = pick (find (λ (c : Candidate). p c && cwd_match cwd c.cwd) cs) (find p cs)

max_by-pick :
    (cwd : Option Text) {i : ℕ} (l : List (ℕ × Candidate))
    → Ascends i l
    → command_of (max_by (compare_candidates cwd) l)
      ≡ pick (second (find (is_here cwd) l)) (first l)
max_by-pick cwd [] h = unfold max_by in refl
max_by-pick cwd ((j, c) ∷ rest) h =
    unfold max_by in
    rw (max_from-first cwd j c rest (Ascends-tail h).1) (elim (Bool-cases (cwd_match cwd c.cwd)) [
      | inl e ↦ rw e
      | inr e ↦ rw e (other (find (is_here cwd) rest))
    ])
  where
    other :
        (o : Option (ℕ × Candidate))
        → command_of (some (unwrap_or o (j, c))) ≡ pick (second o) (some c)
    other none = refl
    other (some (i, d)) = refl

module _ (p : Candidate → Bool) where
  abbrev satisfies : ℕ × Candidate → Bool
  satisfies q = p q.1

  first-enumerate :
      (i : ℕ) (cs : List Candidate) → first (filter satisfies (enumerate i cs)) ≡ find p cs
  unfolding enumerate
  first-enumerate i [] = refl
  first-enumerate i (c ∷ cs) = elim (Bool-cases (p c)) [
    | inl e ↦ rw e
    | inr e ↦ rw e (first-enumerate (suc i) cs)
  ]

  find-enumerate :
      (cwd : Option Text) (i : ℕ) (cs : List Candidate)
      → second (find (is_here cwd) (filter satisfies (enumerate i cs)))
        ≡ find (λ (c : Candidate). p c && cwd_match cwd c.cwd) cs
  unfolding enumerate
  find-enumerate cwd i [] = refl
  find-enumerate cwd i (c ∷ cs) = elim (Bool-cases (p c)) [
    | inl e ↦ elim (Bool-cases (cwd_match cwd c.cwd)) [
      | inl f ↦ rw (e, f)
      | inr f ↦ rw (e, f) (find-enumerate cwd (suc i) cs)
    ]
    | inr e ↦ rw e (find-enumerate cwd (suc i) cs)
  ]

-- The suggestion is the first candidate in most-recent-first order that starts with the prefix, one
-- of the requested directory before all others: how often a command occurs never decides.
pub autosuggest-first_choice :
    (prefix : Text) (window : HistoryWindow) (cwd : Option Text)
    → autosuggest prefix window cwd
      ≡ first_choice cwd
          (λ (c : Candidate). starts_with c.command prefix)
          (distinct_recent_first window)
autosuggest-first_choice prefix window cwd =
    let cs = distinct_recent_first window in
    let p : Candidate → Bool = λ c. starts_with c.command prefix in
    let best =
      max_by-pick cwd (filter (satisfies p) (enumerate 0 cs))
        (filter-Ascends (satisfies p) (enumerate 0 cs) (enumerate-Ascends 0 cs)) in
    unfold autosuggest matching first_choice in
    best ∙ ap₂ pick (find-enumerate p cwd 0 cs) (first-enumerate p 0 cs)
