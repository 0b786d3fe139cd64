-- ===== src/Rank.antt =====
-- crates/core/src/rank.rs: the candidates that match the query, scored and in order; with the
-- `Candidate` of crates/core/src/complete.rs.
pub mod Quality
pub mod Order
use autosuggest_core.Base.{
  ℕ, compare, Ordering, Bool, true, false, ◌&&◌, not, List, [], ◌∷◌, map, Option, none, some, leb,
  ◌==◌, if◌then◌else◌, take, is_empty, unwrap_or, ◌>>=◌,
}
use autosuggest_core.Base.Sort.{sort_by, then_with}
use autosuggest_core.Text.{Text, len, text_eq, text_cmp, starts_with}

pub record Candidate : Type 0 where
  pub insert : Text
  pub display : Option Text
  pub desc : Option Text
  pub priority : Option ℕ
  pub dangerous : Bool
  pub deprecated : Bool
  pub hidden : Bool
  pub match_names : List Text

pub data MatchQuality : Type 0 where
  exact prefix fuzzy : MatchQuality

abbrev pub default_top_n : ℕ
default_top_n = 50

abbrev pub default_priority : ℕ
default_priority = 50

-- The two loops of `is_subsequence`: over the needle, and over what is left of the haystack.
unfoldable pub is_subsequence : Text → Text → Bool
is_subsequence [] hay = true
is_subsequence (n ∷ needle) [] = false
is_subsequence (n ∷ needle) (h ∷ hay) =
    let next = is_subsequence needle hay in
    let skip = is_subsequence (n ∷ needle) hay in if h == n then next else skip

unfoldable pub match_quality : Text → Text → Option MatchQuality
unfolding text_eq starts_with is_subsequence
match_quality name query =
    if text_eq name query
    then some MatchQuality.exact
    else if starts_with name query
    then some MatchQuality.prefix
    else if is_subsequence query name
    then some MatchQuality.fuzzy
    else none

unfoldable pub quality_rank : MatchQuality → ℕ
quality_rank MatchQuality.exact = 0
quality_rank MatchQuality.prefix = 1
quality_rank MatchQuality.fuzzy = 2

-- `Iterator::min_by` on two qualities: of equal elements the earlier one.
unfoldable pub better : Option MatchQuality → Option MatchQuality → Option MatchQuality
unfolding quality_rank
better none q = q
better (some p) none = some p
better (some p) (some q) = if leb (quality_rank p) (quality_rank q) then some p else some q

-- `filter_map` and `min_by` over the names
unfoldable pub best_of : List Text → Text → Option MatchQuality
unfolding match_quality better
best_of [] query = none
best_of (name ∷ names) query = better (match_quality name query) (best_of names query)

unfoldable pub names_of : Candidate → List Text
names_of c = if is_empty c.match_names then c.insert ∷ [] else c.match_names

unfoldable pub best_quality : Candidate → Text → Option MatchQuality
unfolding best_of names_of
best_quality c query =
    if is_empty query then some MatchQuality.prefix else best_of (names_of c) query

-- What the score uses of `f64`, NaN left out: `f64::from(u8)`, the literals m / 10 ^ k, the
-- operators, `clamp` and `partial_cmp`.
pub record Float : Type 1 where
  pub F : Type 0
  pub of_u8 : ℕ → F
  pub literal : ℕ → ℕ → F
  pub add : F → F → F
  pub mul : F → F → F
  pub div : F → F → F
  pub clamp : F → F → F → F
  pub partial_cmp : F → F → Option Ordering

unfoldable pub is_exact : MatchQuality → Bool
is_exact MatchQuality.exact = true
is_exact _ = false

module _ (float : Float) where
  -- `CompletionItem`
  pub record CompletionItem : Type 0 where
    pub insert : Text
    pub display : Text
    pub desc : Option Text
    pub score : float.F
    pub dangerous : Bool
    pub deprecated : Bool

  unfoldable pub weight : MatchQuality → float.F
  weight MatchQuality.exact = float.literal 10 1
  weight MatchQuality.prefix = float.literal 75 2
  weight MatchQuality.fuzzy = float.literal 4 1

  -- The weights are 0.5, 0.2 and 0.3; the recency boost is 0.0.
  unfoldable pub score_of : Candidate → MatchQuality → float.F
  unfolding weight
  score_of c quality =
      let priority =
        float.div (float.of_u8 (unwrap_or c.priority default_priority)) (float.literal 1000 1) in
      let raw =
        float.add
          (float.add (float.mul priority (float.literal 5 1))
            (float.mul (float.literal 0 1) (float.literal 2 1)))
          (float.mul (weight quality) (float.literal 3 1)) in
      float.clamp raw (float.literal 0 1) (float.literal 10 1)

  unfoldable pub item_of : Candidate → MatchQuality → CompletionItem
  unfolding score_of
  item_of c quality = record {
    insert = c.insert;
    display = unwrap_or c.display c.insert;
    desc = c.desc;
    score = score_of c quality;
    dangerous = c.dangerous;
    deprecated = c.deprecated;
  }

  unfoldable pub score_candidate : Candidate → Text → Option (CompletionItem × MatchQuality)
  unfolding best_quality item_of is_exact
  score_candidate c query = do
    quality ← best_quality c query
    if c.hidden && not (is_exact quality) then none else some (item_of c quality, quality)

  -- `filter_map(|c| score_candidate(c, query))`
  unfoldable pub scored : List Candidate → Text → List (CompletionItem × MatchQuality)
  unfolding score_candidate
  scored [] query = []
  scored (c ∷ cs) query =
      let rest = scored cs query in
      elim (score_candidate c query) [ none ↦ rest | some item ↦ item ∷ rest ]

  unfoldable pub by_score : CompletionItem × MatchQuality → CompletionItem × MatchQuality → Ordering
  unfolding len text_cmp
  by_score (a, p) (b, q) =
      then_with (unwrap_or (float.partial_cmp b.score a.score) Ordering.eq)
        (then_with (compare (len a.insert) (len b.insert)) (text_cmp a.insert b.insert))

  unfoldable pub rank_top_n : List Candidate → Text → ℕ → List CompletionItem
  unfolding scored by_score sort_by
  rank_top_n candidates query top_n =
      map (λ (p : CompletionItem × MatchQuality). p.0)
        (take top_n (sort_by by_score (scored candidates query)))
