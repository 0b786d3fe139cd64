-- ===== src/Rank/Order.antt =====
-- crates/core/src/rank.rs: which items are returned, and in which order.
use autosuggest_core.Base.{In, ◌≡◌, true, List, some, unwrap_or, Ordering}
use autosuggest_core.Text.{Text}
use autosuggest_core.Rank.{Candidate, MatchQuality, best_quality, Float, CompletionItem, item_of}

module _ (float : Float) where
  -- The candidate `c` matches the query at the quality, is not hidden from it, and makes the item.
  abbrev pub IsItemOf : Text → Candidate → CompletionItem float × MatchQuality → Type 0
  IsItemOf query c (item, quality) =
      (best_quality c query ≡ some quality)
      × (((c.hidden ≡ true) → quality ≡ MatchQuality.exact) × (item ≡ item_of float c quality))

  -- An item of one of the candidates.
  abbrev pub IsItem : Text → List Candidate → CompletionItem float × MatchQuality → Type 0
  IsItem query cs p = (c : Candidate) × (In c cs × IsItemOf query c p)

  -- The comparison of the scores of two scored items, the greater first.
  abbrev pub by_float :
      CompletionItem float × MatchQuality → CompletionItem float × MatchQuality → Ordering
  by_float a b = unwrap_or (float.partial_cmp b.0.score a.0.score) Ordering.eq
