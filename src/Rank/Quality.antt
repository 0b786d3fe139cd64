-- ===== src/Rank/Quality.antt =====
-- crates/core/src/rank.rs: how well a candidate matches the query.
use autosuggest_core.Base.{◌≡◌, ℕ, Bool, [], ◌∷◌, ◌++◌, Option, none, some, ◌≤◌}
use autosuggest_core.Text.{Text, text_eq, starts_with}
use autosuggest_core.Rank.{MatchQuality, is_subsequence, quality_rank}

-- The characters of the first text occur in the second in the same order, perhaps with gaps.
pub data Subsequence : Text → Text → Type 0 where
  nothing : {hay : Text} → Subsequence [] hay
  keep : {c : ℕ} {needle hay : Text} → Subsequence needle hay → Subsequence (c ∷ needle) (c ∷ hay)
  skip : {c : ℕ} {needle hay : Text} → Subsequence needle hay → Subsequence needle (c ∷ hay)

-- How a name is related to the query at a quality or a better one.
abbrev pub Relates : Text → Text → MatchQuality → Type 0
Relates name query MatchQuality.exact = name ≡ query
Relates name query MatchQuality.prefix = (rest : Text) × (name ≡ query ++ rest)
Relates name query MatchQuality.fuzzy = Subsequence query name

-- The quality was found to be `q` or better.
abbrev pub IsAtLeast : Option MatchQuality → MatchQuality → Type 0
IsAtLeast none q = ⊥
IsAtLeast (some p) q = quality_rank p ≤ quality_rank q

abbrev test : Text → Text → MatchQuality → Bool
test name query MatchQuality.exact = text_eq name query
test name query MatchQuality.prefix = starts_with name query
test name query MatchQuality.fuzzy = is_subsequence query name
