-- ===== src/History/Sound.antt =====
-- crates/core/src/history.rs: the suggestion comes from the window, and there is one whenever a
-- command of the window starts with the prefix.
use autosuggest_core.Base.{
  find-none, In-All, In, ◌≡◌, ◌≢◌, ◌⊎◌, refl, sym, not, is_empty, all, is_some, find-In, ap, subst,
  ◌∙◌, ◌↔◌, inl, inr, Bool, true, false, List, [], ◌∷◌, Option, none, some, arith, Bool-cases,
  Option-cases, here, there, find, ◌&&◌,
}
use autosuggest_core.Base.Sort.{In-sort_by, sort_by-In}
use autosuggest_core.Text.{Text, text_eq, starts_with}
use autosuggest_core.Text.Laws.{text_eq_refl, eq_of_text_eq}
use autosuggest_core.History.{
  HistoryEntry, HistoryWindow, Candidate, autosuggest, distinct_recent_first, recent_first_order,
  newer_first, cwd_match,
}
use autosuggest_core.History.Dedupe.{summary, candidate_of, candidate_of-distinct_recent_first}
use autosuggest_core.History.Best.{first_choice, pick, autosuggest-first_choice}

-- The command is one of the entries.
abbrev pub IsRecorded : Text → List HistoryEntry → Type 0
IsRecorded command es = (e : HistoryEntry) × (In e es × (e.command ≡ command))

summary-IsRecorded :
    (command : Text) (es : List HistoryEntry) (c : Candidate)
    → summary command es ≡ some c
    → IsRecorded command es
unfolding summary
summary-IsRecorded command [] c h = absurd (cc)
summary-IsRecorded command (e ∷ es) c h = elim (Bool-cases (text_eq e.command command)) [
  | inl q ↦ (e, (here refl, eq_of_text_eq e.command command q))
  | inr q ↦ (let (d, (m, r)) = summary-IsRecorded command es c (rw q at h) in (d, (there m, r)))
]

IsRecorded-summary :
    (command : Text) (es : List HistoryEntry)
    → IsRecorded command es
    → (c : Candidate) × (summary command es ≡ some c)
unfolding summary
IsRecorded-summary command [] h = elim h.1.0 [ ]
IsRecorded-summary command (e ∷ es) (d, (there m, r)) =
    elim (Bool-cases (text_eq e.command command)) [
      | inl q ↦ rw q (_, refl)
      | inr q ↦ rw q (IsRecorded-summary command es (d, (m, r)))
    ]
IsRecorded-summary command (e ∷ es) (d, (here s, r)) =
    let q : e.command ≡ command = ap (λ x. x.command) (sym s) ∙ r in
    rw (q, text_eq_refl command) (_, refl)

find-some :
    {a : Candidate} (p : Candidate → Bool) (cs : List Candidate)
    → In a cs
    → p a ≡ true
    → (c : Candidate) × (find p cs ≡ some c)
find-some p cs m h = elim (Option-cases (find p cs)) [
  | inr k ↦ k
  | inl e ↦ absurd (let k = In-All (λ a. p a ≡ false) cs (find-none p cs e) m in cc)
]

recent_first_order-In :
    (e : HistoryEntry) (es : List HistoryEntry) → In e (recent_first_order es) ↔ In e es
unfolding recent_first_order
recent_first_order-In e es =
    elim (Bool-cases (not (is_empty es) && all (λ (x : HistoryEntry). is_some x.ts) es)) [
      | inl h ↦ rw h (In-sort_by newer_first es, sort_by-In newer_first es)
      | inr h ↦ rw h (λ m. m, λ m. m)
    ]

-- The candidates are of exactly the commands of the window.
candidates-IsRecorded :
    (window : HistoryWindow) (c : Candidate)
    → In c (distinct_recent_first window)
    → IsRecorded c.command window.entries
unfolding candidate_of
candidates-IsRecorded window c m =
    let (k, h) =
      find-some (λ (x : Candidate). text_eq x.command c.command) (distinct_recent_first window) m
        (text_eq_refl c.command) in
    let q = candidate_of-distinct_recent_first c.command window in
    let (e, (n, r)) =
      summary-IsRecorded c.command (recent_first_order window.entries) k (sym q ∙ h) in
    (e, ((recent_first_order-In e window.entries).0 n, r))

IsRecorded-candidates :
    (window : HistoryWindow) (command : Text)
    → IsRecorded command window.entries
    → (c : Candidate) × (In c (distinct_recent_first window) × (c.command ≡ command))
unfolding candidate_of
IsRecorded-candidates window command (e, (m, r)) =
    let (c, h) =
      IsRecorded-summary command (recent_first_order window.entries)
        (e, ((recent_first_order-In e window.entries).1 m, r)) in
    let q = candidate_of-distinct_recent_first command window in
    let (n, k) =
      find-In (λ (x : Candidate). text_eq x.command command) (distinct_recent_first window)
        (q ∙ h) in
    (c, (n, eq_of_text_eq c.command command k))

pick-some :
    (p q : Option Candidate) (command : Text)
    → pick p q ≡ some command
    → (c : Candidate) × (((p ≡ some c) ⊎ (q ≡ some c)) × (c.command ≡ command))
pick-some (some c) q command h = (c, (inl refl, cc))
pick-some none (some c) command h = (c, (inr refl, cc))
pick-some none none command h = absurd (cc)

first_choice-In :
    (cwd : Option Text) (p : Candidate → Bool) (cs : List Candidate) (command : Text)
    → first_choice cwd p cs ≡ some command
    → (c : Candidate) × (In c cs × ((p c ≡ true) × (c.command ≡ command)))
unfolding first_choice
first_choice-In cwd p cs command h =
    let (c, (o, e)) =
      pick-some (find (λ (c : Candidate). p c && cwd_match cwd c.cwd) cs) (find p cs) command h in
    elim o [
      | inl f ↦
          (let (m, k) = find-In (λ (c : Candidate). p c && cwd_match cwd c.cwd) cs f in
            (c, (m, (ground arith, e))))
      | inr f ↦ (let (m, k) = find-In p cs f in (c, (m, (k, e))))
    ]

first_choice-some :
    {a : Candidate} (cwd : Option Text) (p : Candidate → Bool) (cs : List Candidate)
    → In a cs
    → p a ≡ true
    → first_choice cwd p cs ≢ none
unfolding first_choice
first_choice-some cwd p cs m h e =
    let (c, f) = find-some p cs m h in
    elim (Option-cases (find (λ (c : Candidate). p c && cwd_match cwd c.cwd) cs)) [
      | inl g ↦ absurd (let k = rw (g, f) at e in cc)
      | inr (d, g) ↦ absurd (let k = rw g at e in cc)
    ]

-- A suggestion is the command of an entry of the window and starts with the prefix; and there is a
-- suggestion whenever the command of some entry starts with the prefix.
pub autosuggest-IsRecorded :
    (prefix : Text) (window : HistoryWindow) (cwd : Option Text)
    → ((command : Text)
        → autosuggest prefix window cwd ≡ some command
        → IsRecorded command window.entries × (starts_with command prefix ≡ true))
      × ((e : HistoryEntry)
          → In e window.entries
          → starts_with e.command prefix ≡ true
          → autosuggest prefix window cwd ≢ none)
autosuggest-IsRecorded prefix window cwd =
    let cs = distinct_recent_first window in
    let p : Candidate → Bool = λ c. starts_with c.command prefix in
    let q = autosuggest-first_choice prefix window cwd in
    (
      λ command h.
          let (c, (m, (k, e))) = first_choice-In cwd p cs command (sym q ∙ h) in
          (
            subst (λ t. IsRecorded t window.entries) e (candidates-IsRecorded window c m),
            subst (λ t. starts_with t prefix ≡ true) e k,
          ),
      λ e m h n.
          let (c, (k, r)) = IsRecorded-candidates window e.command (e, (m, refl)) in
          first_choice-some cwd p cs k (subst (λ t. starts_with t prefix ≡ true) (sym r) h)
            (sym q ∙ n),
    )
