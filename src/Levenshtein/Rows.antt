-- ===== src/Levenshtein/Rows.antt =====
-- The rolling rows hold the recursive distances of the reversed prefixes.
use autosuggest_core.Levenshtein.Edits.{
  Edits-length, lev, reverse_onto, backwards, IsDistance, IsDistance-backwards, IsDistance-flip,
  Edits-insert_all,
}
use autosuggest_core.Base.{
  ℕ, suc, ◌≡◌, refl, ap, ◌∙◌, List, [], ◌∷◌, some, length, get_elem?, arith, Bool-cases, inl, inr,
  leb,
}
use autosuggest_core.Text.{Text}
use autosuggest_core.Levenshtein.{next_cells, rows, count_up, last_row, by_rows, distance}

-- The cells behind the first of the row for the reversed prefix `u` of the long text, where `v` is the
-- reversed prefix of the short text that is done and `ss` is what is left of it.
cells : Text → Text → Text → List ℕ
cells u v [] = []
cells u v (s ∷ ss) = lev u (s ∷ v) ∷ cells u (s ∷ v) ss

next_cells-cells :
    (c : ℕ) (u v ss : Text)
    → next_cells c (lev (c ∷ u) v) (lev u v ∷ cells u v ss) ss ≡ cells (c ∷ u) v ss
unfolding next_cells cells lev
next_cells-cells c u v [] = refl
next_cells-cells c u v (s ∷ ss) = ap (◌∷◌ (lev (c ∷ u) (s ∷ v))) (next_cells-cells c u (s ∷ v) ss)

-- The whole row for the reversed prefix `u` of the long text.
abbrev row : Text → Text → List ℕ
row u short = lev u [] ∷ cells u [] short

rows-row :
    (u long short : Text)
    → rows (length u) long short (row u short) ≡ row (reverse_onto long u) short
unfolding rows reverse_onto
rows-row u [] short = refl
rows-row u (c ∷ long) short =
    ap (rows (suc (length u)) long short) (next_row c u short) ∙ rows-row (c ∷ u) long short
  where
    next_row :
        (c : ℕ) (u short : Text)
        → suc (length u) ∷ next_cells c (suc (length u)) (row u short) short ≡ row (c ∷ u) short
    next_row c u short = unfold lev in ap (◌∷◌ (suc (length u))) (next_cells-cells c u [] short)

count_up-cells : (v ss : Text) → count_up (length v) ss ≡ length v ∷ cells [] v ss
unfolding count_up cells lev
count_up-cells v [] = refl
count_up-cells v (s ∷ ss) = ap (◌∷◌ (length v)) (count_up-cells (s ∷ v) ss)

last_row-row : (long short : Text) → last_row long short ≡ row (backwards long) short
unfolding last_row backwards
last_row-row long short =
    ap (rows 0 long short) (count_up-cells [] short) ∙ (unfold lev in rows-row [] long short)

get_elem?-cells :
    (u v ss : Text)
    → get_elem? (lev u v ∷ cells u v ss) (length ss) ≡ some (lev u (reverse_onto ss v))
unfolding cells reverse_onto
get_elem?-cells u v [] = refl
get_elem?-cells u v (s ∷ ss) = get_elem?-cells u (s ∷ v) ss

-- The index `short.len()` is in range of the last row.
last_row_in_range :
    (long short : Text)
    → get_elem? (last_row long short) (length short) ≡ some (lev (backwards long) (backwards short))
last_row_in_range long short =
    rw (last_row-row long short)
      (unfold backwards in get_elem?-cells (reverse_onto long []) [] short)

by_rows-IsDistance : (long short : Text) → IsDistance long short (by_rows long short)
by_rows-IsDistance long short =
    let e : by_rows long short ≡ lev (backwards long) (backwards short) =
      unfold by_rows in rw (last_row_in_range long short) in
    rw e (IsDistance-backwards long short)

IsDistance-nil : (t : Text) → IsDistance [] t (length t)
IsDistance-nil t = record {
  script = Edits-insert_all t;
  shortest = λ m p. omega (arith, Edits-length p);
}

-- `distance a b` is the least number of insertions, deletions and substitutions that take `a` to `b`.
pub distance-IsDistance : (a b : Text) → IsDistance a b (distance a b)
unfolding distance
distance-IsDistance [] b = IsDistance-nil b
distance-IsDistance (c ∷ a) [] = IsDistance-flip (IsDistance-nil (c ∷ a))
distance-IsDistance (c ∷ a) (d ∷ b) = elim (Bool-cases (leb (length (c ∷ a)) (length (d ∷ b)))) [
  | inl e ↦ rw e (IsDistance-flip (by_rows-IsDistance (d ∷ b) (c ∷ a)))
  | inr e ↦ rw e (by_rows-IsDistance (c ∷ a) (d ∷ b))
]

-- The order of the arguments does not matter.
pub distance_comm : (a b : Text) → distance a b ≡ distance b a
distance_comm a b =
    let p = distance-IsDistance a b in
    let q = distance-IsDistance b a in
    omega (arith, p.shortest _ (IsDistance-flip q).script, q.shortest _ (IsDistance-flip p).script)
