-- ===== src/History.antt =====
-- crates/core/src/history.rs: the ghost text for a prefix, from a window of recent commands.
-- The entries are those of crates/protocol/src/history.rs; `i32` and `i64` fields are integers, and
-- the index of a candidate is below 2 ^ 63, where `as i64` keeps it.
pub mod Dedupe
pub mod Best
pub mod Recent
pub mod Sound
use autosuggest_core.Base.{
  ℕ, zero, suc, ◌+◌, ◌-◌, ◌^◌, min, compare, Ordering, Bool, true, false, List, [], ◌∷◌, Option,
  none, some, if◌then◌else◌, all, filter, is_some, is_empty, not, ◌&&◌, unwrap_or,
}
use autosuggest_core.Base.Int.{ℤ, pos, int_cmp, neg}
use autosuggest_core.Base.Sort.{sort_by, then_with}
use autosuggest_core.Text.{Text, text_eq, starts_with}

pub record HistoryEntry : Type 0 where
  pub command : Text
  pub cwd : Option Text
  pub exit_code : Option ℤ
  pub ts : Option ℤ

pub record HistoryWindow : Type 0 where
  pub entries : List HistoryEntry

-- A distinct command, with the directory of its first occurrence and its frequency.
pub record Candidate : Type 0 where
  pub command : Text
  pub cwd : Option Text
  pub count : ℕ

abbrev pub u32_max : ℕ
u32_max = 2 ^ 32 - 1

-- `u32::saturating_add(1)`
unfoldable pub saturating_inc : ℕ → ℕ
saturating_inc n = min (n + 1) u32_max

-- The comparison by `Reverse(e.ts.unwrap_or(0))`.
unfoldable pub newer_first : HistoryEntry → HistoryEntry → Ordering
newer_first a b = int_cmp (unwrap_or b.ts (pos 0)) (unwrap_or a.ts (pos 0))

unfoldable pub recent_first_order : List HistoryEntry → List HistoryEntry
unfolding sort_by newer_first
recent_first_order entries =
    if not (is_empty entries) && all (λ (e : HistoryEntry). is_some e.ts) entries
    then sort_by newer_first entries
    else entries

-- The body of the loop of `distinct_recent_first`: the first candidate of the entry's command is
-- counted up, or a new candidate is pushed.
unfoldable pub add_entry : List Candidate → HistoryEntry → List Candidate
unfolding saturating_inc text_eq
add_entry [] entry = record { command = entry.command; cwd = entry.cwd; count = 1 } ∷ []
add_entry (c ∷ cs) entry =
    if text_eq c.command entry.command
    then record c { count = saturating_inc c.count } ∷ cs
    else c ∷ add_entry cs entry

unfoldable pub add_entries : List Candidate → List HistoryEntry → List Candidate
unfolding add_entry
add_entries candidates [] = candidates
add_entries candidates (entry ∷ entries) = add_entries (add_entry candidates entry) entries

unfoldable pub distinct_recent_first : HistoryWindow → List Candidate
unfolding add_entries recent_first_order
distinct_recent_first window = add_entries [] (recent_first_order window.entries)

unfoldable pub cwd_match : Option Text → Option Text → Bool
unfolding text_eq
cwd_match (some req) (some entry) = text_eq req entry
cwd_match _ _ = false

unfoldable pub rank_key : Candidate → ℕ → Option Text → Bool × ℤ × ℕ
unfolding cwd_match
rank_key c dedupe_index req_cwd = (cwd_match req_cwd c.cwd, neg dedupe_index, c.count)

-- `false < true`
abbrev pub bool_cmp : Bool → Bool → Ordering
bool_cmp false true = Ordering.lt
bool_cmp true false = Ordering.gt
bool_cmp _ _ = Ordering.eq

-- The order of such keys, by the parts from the left.
unfoldable pub key_cmp : Bool × ℤ × ℕ → Bool × ℤ × ℕ → Ordering
key_cmp (b, i, n) (b', i', n') = then_with (bool_cmp b b') (then_with (int_cmp i i') (compare n n'))

-- `iter().enumerate()`, from `i` on
unfoldable pub enumerate : ℕ → List Candidate → List (ℕ × Candidate)
enumerate i [] = []
enumerate i (c ∷ cs) = (i, c) ∷ enumerate (suc i) cs

-- `Iterator::max_by`: of equal elements the later one.
unfoldable pub max_from {ℓ} : {A : Type ℓ} → (A → A → Ordering) → A → List A → A
max_from cmp best [] = best
max_from cmp best (x ∷ xs) = max_from cmp (elim (cmp best x) [ Ordering.gt ↦ best | _ ↦ x ]) xs

unfoldable pub max_by {ℓ} : {A : Type ℓ} → (A → A → Ordering) → List A → Option A
unfolding max_from
max_by cmp [] = none
max_by cmp (x ∷ xs) = some (max_from cmp x xs)

unfoldable pub compare_candidates : Option Text → ℕ × Candidate → ℕ × Candidate → Ordering
unfolding rank_key key_cmp
compare_candidates cwd (i, a) (j, b) = key_cmp (rank_key a i cwd) (rank_key b j cwd)

unfoldable pub matching : Text → List Candidate → List (ℕ × Candidate)
unfolding starts_with enumerate
matching prefix candidates =
    filter (λ (c : ℕ × Candidate). starts_with c.1.command prefix) (enumerate 0 candidates)

-- `.map(|(_, c)| c.command.to_string())`
abbrev pub command_of : Option (ℕ × Candidate) → Option Text
command_of none = none
command_of (some (i, c)) = some c.command

unfoldable pub autosuggest : Text → HistoryWindow → Option Text → Option Text
unfolding distinct_recent_first matching max_by compare_candidates
autosuggest prefix window cwd =
    command_of (max_by (compare_candidates cwd) (matching prefix (distinct_recent_first window)))
