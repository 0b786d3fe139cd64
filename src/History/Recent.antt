-- ===== src/History/Recent.antt =====
-- crates/core/src/history.rs: the recency that decides, stated of the entries of the window.
use mathlib.Core.List.{Perm}
use autosuggest_core.Base.{
  ◌≡◌, refl, sym, ap, ap₂, ◌∙◌, ◌⊎◌, inl, inr, Bool, true, false, ◌&&◌, List, [], ◌∷◌, ◌++◌, map,
  Option, none, some, if◌then◌else◌, find, any, unwrap_or, Ordering, Bool-cases, append-nil,
  append_assoc, Option-cases,
}
use autosuggest_core.Base.Int.{pos, int_cmp}
use autosuggest_core.Base.Sort.{IsSortedBy}
use autosuggest_core.Text.{Text, text_eq, starts_with}
use autosuggest_core.History.{
  HistoryEntry, HistoryWindow, Candidate, newer_first, recent_first_order, add_entry, add_entries,
  distinct_recent_first, cwd_match, autosuggest,
}
use autosuggest_core.History.Dedupe.{
  all_stamped, summary, candidate_of, candidate_of-distinct_recent_first, recent_first_order_lem,
}
use autosuggest_core.History.Best.{pick, first_choice, autosuggest-first_choice}

-- Later stamps come first.
abbrev pub by_stamp : HistoryEntry → HistoryEntry → Ordering
by_stamp a b = int_cmp (unwrap_or b.ts (pos 0)) (unwrap_or a.ts (pos 0))

-- `order` has the entries from newer to older, if all are stamped, and as they are given otherwise.
abbrev pub IsRecentFirst : List HistoryEntry → List HistoryEntry → Type 0
IsRecentFirst entries order =
    Perm order entries
    × ((all_stamped entries ≡ true) × IsSortedBy by_stamp order
        ⊎ (all_stamped entries ≡ false) × (order ≡ entries))

recent_first_order-IsRecentFirst :
    (entries : List HistoryEntry) → IsRecentFirst entries (recent_first_order entries)
unfolding newer_first
recent_first_order-IsRecentFirst = recent_first_order_lem

-- The entries of a list that are the first of their command, which is none of `seen`.
unfoldable pub firsts : List Text → List HistoryEntry → List HistoryEntry
unfolding text_eq
firsts seen [] = []
firsts seen (e ∷ es) =
    if any (λ t. text_eq t e.command) seen
    then firsts seen es
    else e ∷ firsts (seen ++ e.command ∷ []) es

-- The entry stands in the directory that is asked for.
abbrev pub is_in : Option Text → HistoryEntry → Bool
is_in (some cwd) e = elim e.cwd [ none ↦ false | some d ↦ text_eq cwd d ]
is_in none e = false

abbrev pub either : Option HistoryEntry → Option HistoryEntry → Option Text
either (some e) o = some e.command
either none (some e) = some e.command
either none none = none

-- The command of the first entry with the prefix in the directory, or else of the first with it.
abbrev pub chosen : Text → Option Text → List HistoryEntry → Option Text
chosen prefix cwd es =
    either (find (λ (e : HistoryEntry). starts_with e.command prefix && is_in cwd e) es)
      (find (λ (e : HistoryEntry). starts_with e.command prefix) es)

abbrev Place : Type 0
Place = Text × Option Text

abbrev candidate_place : Candidate → Place
candidate_place c = (c.command, c.cwd)

abbrev entry_place : HistoryEntry → Place
entry_place e = (e.command, e.cwd)

abbrev command : Candidate → Text
command c = c.command

-- What an entry adds to the places of the candidates.
abbrev Adds : List Candidate → HistoryEntry → List Candidate → Type 0
Adds cs e after =
    if any (λ t. text_eq t e.command) (map command cs)
    then (map candidate_place after ≡ map candidate_place cs) × (map command after ≡ map command cs)
    else (map candidate_place after ≡ map candidate_place cs ++ entry_place e ∷ [])
      × (map command after ≡ map command cs ++ e.command ∷ [])

add_entry-Adds : (cs : List Candidate) (e : HistoryEntry) → Adds cs e (add_entry cs e)
unfolding add_entry
add_entry-Adds [] e = (refl, refl)
add_entry-Adds (c ∷ cs) e = elim (Bool-cases (text_eq c.command e.command)) [
  | inl q ↦ rw q (refl, refl)
  | inr q ↦
      let rest = add_entry-Adds cs e in
      elim (Bool-cases (any (λ t. text_eq t e.command) (map command cs))) [
        | inl k ↦
            let (p, r) = rw k at rest in
            rw (q, k) (ap (◌∷◌ (candidate_place c)) p, ap (◌∷◌ c.command) r)
        | inr k ↦
            let (p, r) = rw k at rest in
            rw (q, k) (ap (◌∷◌ (candidate_place c)) p, ap (◌∷◌ c.command) r)
      ]
]

add_entries-firsts :
    (cs : List Candidate) (es : List HistoryEntry)
    → map candidate_place (add_entries cs es)
      ≡ map candidate_place cs ++ map entry_place (firsts (map command cs) es)
unfolding add_entries firsts
add_entries-firsts cs [] = sym (append-nil (map candidate_place cs))
add_entries-firsts cs (e ∷ es) =
    let rest = add_entries-firsts (add_entry cs e) es in
    let adds = add_entry-Adds cs e in
    elim (Bool-cases (any (λ t. text_eq t e.command) (map command cs))) [
      | inl k ↦ (let (p, r) = rw k at adds in rw k (rest ∙ rw (p, r) refl))
      | inr k ↦
          let (p, r) = rw k at adds in
          rw k (
            rest
            ∙ rw (p, r)
                (append_assoc (map candidate_place cs) (entry_place e ∷ [])
                  (map entry_place (firsts (map command cs ++ e.command ∷ []) es))))
    ]

abbrev placed {ℓ} : {A : Type ℓ} → (A → Place) → Option A → Option Place
placed f none = none
placed f (some x) = some (f x)

abbrev at_places : Option Place → Option Place → Option Text
at_places (some p) o = some p.0
at_places none (some p) = some p.0
at_places none none = none

find-map {ℓ} :
    {A : Type ℓ} (f : A → Place) (q : Place → Bool) (xs : List A)
    → placed f (find (λ x. q (f x)) xs) ≡ find q (map f xs)
find-map f q [] = refl
find-map f q (x ∷ xs) = elim (Bool-cases (q (f x))) [
  | inl e ↦ rw e refl
  | inr e ↦ rw e (find-map f q xs)
]

pick-places :
    (a b : Option Candidate)
    → pick a b ≡ at_places (placed candidate_place a) (placed candidate_place b)
pick-places (some c) b = refl
pick-places none (some c) = refl
pick-places none none = refl

either-places :
    (a b : Option HistoryEntry)
    → either a b ≡ at_places (placed entry_place a) (placed entry_place b)
either-places (some c) b = refl
either-places none (some c) = refl
either-places none none = refl

cwd_match-is_in : (cwd : Option Text) (e : HistoryEntry) → cwd_match cwd e.cwd ≡ is_in cwd e
unfolding cwd_match
cwd_match-is_in none e = refl
cwd_match-is_in (some cwd) e = elim (Option-cases e.cwd) [
  | inl n ↦ rw n refl
  | inr (d, n) ↦ rw n refl
]

module _ (prefix : Text) (cwd : Option Text) where
  abbrev begins : Place → Bool
  begins p = starts_with p.0 prefix

  abbrev begins_here : Place → Bool
  begins_here p = starts_with p.0 prefix && cwd_match cwd p.1

  abbrev chosen_place : List Place → Option Text
  chosen_place ps = at_places (find begins_here ps) (find begins ps)

  first_choice-places :
      (cs : List Candidate)
      → first_choice cwd (λ (c : Candidate). starts_with c.command prefix) cs
        ≡ chosen_place (map candidate_place cs)
  unfolding first_choice
  first_choice-places cs =
      pick-places _ _
      ∙ ap₂ at_places (find-map candidate_place begins_here cs) (find-map candidate_place begins cs)

  chosen-places :
      (es : List HistoryEntry) → chosen prefix cwd es ≡ chosen_place (map entry_place es)
  chosen-places es =
      let here : (λ (e : HistoryEntry). starts_with e.command prefix && is_in cwd e)
          ≡ (λ (e : HistoryEntry). starts_with e.command prefix && cwd_match cwd e.cwd) =
        (λ i e. starts_with e.command prefix && sym (cwd_match-is_in cwd e) i) in
      either-places _ _
      ∙ ap₂ at_places
          (ap (λ p. placed entry_place (find p es)) here ∙ find-map entry_place begins_here es)
          (find-map entry_place begins es)

-- With the entries of the window from newer to older, if all are stamped, and as they are given
-- otherwise, and of these the first of each command: the suggestion is the command of the first that
-- starts with the prefix and stands in the requested directory, or else of the first that starts with
-- the prefix. How often a command occurs never decides.
pub autosuggest-chosen :
    (prefix : Text) (window : HistoryWindow) (cwd : Option Text)
    → (order : List HistoryEntry) × (IsRecentFirst window.entries order
        × (autosuggest prefix window cwd ≡ chosen prefix cwd (firsts [] order)))
unfolding distinct_recent_first
autosuggest-chosen prefix window cwd =
    let order = recent_first_order window.entries in
    (
      order,
      (
        recent_first_order-IsRecentFirst window.entries,
        autosuggest-first_choice prefix window cwd
            ∙ first_choice-places prefix cwd (distinct_recent_first window)
            ∙ ap (chosen_place prefix cwd) (add_entries-firsts [] order)
            ∙ sym (chosen-places prefix cwd (firsts [] order)),
      ),
    )

-- With the entries of the window from newer to older, if all are stamped, and as they are given
-- otherwise: the candidate of every command is its summary over them, present exactly if the command
-- is among them, with the directory of the first entry and the number of entries, saturated at the
-- largest `u32`.
pub distinct_recent_first-summary :
    (window : HistoryWindow)
    → (order : List HistoryEntry) × (IsRecentFirst window.entries order
        × ((command : Text)
            → candidate_of command (distinct_recent_first window) ≡ summary command order))
distinct_recent_first-summary window = (
  recent_first_order window.entries,
  (
    recent_first_order-IsRecentFirst window.entries,
    λ command. candidate_of-distinct_recent_first command window,
  ),
)
