-- ===== src/History/Dedupe.antt =====
-- The candidates: one for each distinct command, with its latest directory and its frequency.
use autosuggest_core.Base.Int.{pos, ℤ, int_cmp_total, int_cmp_trans}
use autosuggest_core.Base.{
  unwrap_or, find-In, ◌⊎◌, In-All, ℕ, suc, ◌+◌, ◌≤◌, min, ◌≡◌, refl, ◌∙◌, Bool, true, false, inl,
  inr, List, [], ◌∷◌, Option, none, some, arith, if◌then◌else◌, find, all, Bool-cases, All, is_some,
}
use autosuggest_core.Base.Sort.{IsPreorder, IsSortedBy, sort_by-IsSortedBy, sort_by-perm}
use autosuggest_core.Text.{Text, text_eq}
use autosuggest_core.Text.Laws.{text_eq_refl, eq_of_text_eq}
use autosuggest_core.History.{
  HistoryEntry, HistoryWindow, Candidate, u32_max, newer_first, recent_first_order, add_entry,
  add_entries, distinct_recent_first,
}
use mathlib.Core.List.{Perm}
use mathlib.Core.List.Perm

-- The number of entries with the command.
unfoldable pub occurrences : Text → List HistoryEntry → ℕ
occurrences command [] = 0
occurrences command (e ∷ es) =
    if text_eq e.command command then suc (occurrences command es) else occurrences command es

-- What the candidate of a command should be: the directory of its first entry, and the number of its
-- entries, as far as a `u32` counts.
unfoldable pub summary : Text → List HistoryEntry → Option Candidate
unfolding occurrences
summary command [] = none
summary command (e ∷ es) =
    if text_eq e.command command
    then some (record {
      command = command;
      cwd = e.cwd;
      count = min (suc (occurrences command es)) u32_max;
    })
    else summary command es

unfoldable pub candidate_of : Text → List Candidate → Option Candidate
candidate_of command cs = find (λ (c : Candidate). text_eq c.command command) cs

-- The candidate as it is after the further entries.
later_count : Text → List HistoryEntry → Option Candidate → Option Candidate
unfolding summary
later_count command es none = summary command es
later_count command es (some c) =
    some (record c { count = min (c.count + occurrences command es) u32_max })

abbrev Counted : List Candidate → Type 0
Counted = All (λ (c : Candidate). c.count ≤ u32_max)

add_entry-Counted : (cs : List Candidate) (e : HistoryEntry) → Counted cs → Counted (add_entry cs e)
unfolding add_entry
add_entry-Counted [] e h = (omega arith, tt)
add_entry-Counted (c ∷ cs) e h = elim (Bool-cases (text_eq c.command e.command)) [
  | inl q ↦ rw q (omega arith, h.1)
  | inr q ↦ rw q (h.0, add_entry-Counted cs e h.1)
]

-- One entry changes the candidate of its own command and no other.
candidate_of-add_entry :
    (command : Text) (cs : List Candidate) (e : HistoryEntry) (es : List HistoryEntry)
    → Counted cs
    → later_count command es (candidate_of command (add_entry cs e))
      ≡ later_count command (e ∷ es) (candidate_of command cs)
unfolding candidate_of add_entry later_count
candidate_of-add_entry command [] e es h = elim (Bool-cases (text_eq e.command command)) [
  | inl q ↦ ground (arith, eq_of_text_eq e.command command)
  | inr q ↦ rw q
]
candidate_of-add_entry command (c ∷ cs) e es h = elim (Bool-cases (text_eq c.command e.command)) [
  | inl a ↦
      let same = eq_of_text_eq c.command e.command a in
      elim (Bool-cases (text_eq c.command command)) [
        | inl b ↦ ground (arith, h.0)
        | inr b ↦ ground arith
      ]
  | inr a ↦ elim (Bool-cases (text_eq c.command command)) [
    | inl b ↦
        let same = eq_of_text_eq c.command command b in
        ground (arith, eq_of_text_eq e.command command, text_eq_refl command)
    | inr b ↦ rw (a, b) (candidate_of-add_entry command cs e es h.1)
  ]
]

candidate_of-add_entries :
    (command : Text) (cs : List Candidate) (es : List HistoryEntry)
    → Counted cs
    → candidate_of command (add_entries cs es) ≡ later_count command es (candidate_of command cs)
unfolding add_entries
candidate_of-add_entries command cs [] h = unfold later_count in go (candidate_of command cs) refl
  where
    go : (o : Option Candidate) → candidate_of command cs ≡ o → o ≡ later_count command [] o
    go none e = unfold later_count in refl
    go (some c) e =
        let b : c.count ≤ u32_max =
          In-All (λ (d : Candidate). d.count ≤ u32_max) cs h
            (find-In {a = c} (λ (d : Candidate). text_eq d.command command) cs
              (unfold candidate_of in e)).0 in
        unfold later_count in ground arith
candidate_of-add_entries command cs (e ∷ es) h =
    candidate_of-add_entries command (add_entry cs e) es (add_entry-Counted cs e h)
    ∙ candidate_of-add_entry command cs e es h

-- The candidate that the window has for a command is its summary over the window in most-recent-first
-- order: present exactly if the command is in the window, with the directory of the most recent entry
-- and the number of entries, saturated at the largest `u32`.
pub candidate_of-distinct_recent_first :
    (command : Text) (window : HistoryWindow)
    → candidate_of command (distinct_recent_first window)
      ≡ summary command (recent_first_order window.entries)
candidate_of-distinct_recent_first command window =
    unfold distinct_recent_first in
    candidate_of-add_entries command [] (recent_first_order window.entries) tt
    ∙ unfold later_count candidate_of in refl

abbrev stamp : HistoryEntry → ℤ
stamp e = unwrap_or e.ts (pos 0)

pub newer_first-IsPreorder : IsPreorder newer_first
unfolding newer_first
newer_first-IsPreorder = record {
  total = λ a b. int_cmp_total (stamp b) (stamp a);
  trans = λ a b c h k. int_cmp_trans (stamp c) (stamp b) (stamp a) k h;
}

abbrev pub all_stamped : List HistoryEntry → Bool
all_stamped entries = all (λ (e : HistoryEntry). is_some e.ts) entries

-- The order in which the entries are read is a rearrangement of the window: from newer to older if
-- every entry has a time stamp, and the order given otherwise.
pub recent_first_order_lem :
    (entries : List HistoryEntry)
    → Perm (recent_first_order entries) entries
      × ((all_stamped entries ≡ true) × IsSortedBy newer_first (recent_first_order entries)
          ⊎ (all_stamped entries ≡ false) × (recent_first_order entries ≡ entries))
unfolding recent_first_order
recent_first_order_lem [] = (Perm.rfl, inl (refl, tt))
recent_first_order_lem (e ∷ es) = elim (Bool-cases (all_stamped (e ∷ es))) [
  | inl h ↦ rw h (
    sort_by-perm newer_first (e ∷ es),
    inl (refl, sort_by-IsSortedBy newer_first-IsPreorder (e ∷ es)),
  )
  | inr h ↦ rw h (Perm.rfl, inr (refl, refl))
]
