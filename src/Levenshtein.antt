-- ===== src/Levenshtein.antt =====
-- crates/core/src/correct/levenshtein.rs: the edit distance, with two rolling rows.
-- A row is the list of its cells. The inner loop reads `prev[j]` and `prev[j + 1]` at the head of what
-- is left of `prev`, and `curr[j]` is the cell that it wrote last.
pub mod Edits
pub mod Rows
use autosuggest_core.Base.{
  ℕ, suc, ◌+◌, min, List, [], ◌∷◌, length, get_elem?, unwrap_or, leb, ◌==◌, if◌then◌else◌, is_empty,
}
use autosuggest_core.Text.{Text}

unfoldable pub cost : ℕ → ℕ → ℕ
cost lc sc = if lc == sc then 0 else 1

-- `curr[1..]` for the character `lc`: `left` is the cell before.
unfoldable pub next_cells : ℕ → ℕ → List ℕ → Text → List ℕ
unfolding cost
next_cells lc left (diagonal ∷ above ∷ prev) (sc ∷ short) =
    let cell = min (min (above + 1) (left + 1)) (diagonal + cost lc sc) in
    cell ∷ next_cells lc cell (above ∷ prev) short
next_cells lc left prev short = []

-- The outer loop, from row `i` on; the rows are swapped after each round.
unfoldable pub rows : ℕ → Text → Text → List ℕ → List ℕ
unfolding next_cells
rows i [] short prev = prev
rows i (lc ∷ long) short prev = rows (suc i) long short (suc i ∷ next_cells lc (suc i) prev short)

-- `(i..=i + n).collect()`, of which the first row is the case `i = 0`
unfoldable pub count_up : ℕ → Text → List ℕ
count_up i [] = i ∷ []
count_up i (c ∷ cs) = i ∷ count_up (suc i) cs

unfoldable pub last_row : Text → Text → List ℕ
unfolding rows count_up
last_row long short = rows 0 long short (count_up 0 short)

-- `prev[short.len()]`, which is in range.
unfoldable pub by_rows : Text → Text → ℕ
unfolding last_row
by_rows long short = unwrap_or (get_elem? (last_row long short) (length short)) 0

unfoldable pub distance : Text → Text → ℕ
unfolding by_rows
distance a b =
    if is_empty a
    then length b
    else if is_empty b
    then length a
    else if leb (length a) (length b)
    then by_rows b a
    else by_rows a b
