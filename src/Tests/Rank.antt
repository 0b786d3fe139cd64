-- ===== src/Tests/Rank.antt =====
-- crates/core/src/rank.rs at concrete candidates, with scores in thousandths.
use autosuggest_core.Base.{
  ℕ, ◌+◌, ◌*◌, ◌/◌, ◌^◌, min, max, compare, Bool, true, false, List, [], ◌∷◌, none, some,
}
use autosuggest_core.Text.{Text, codes}
use autosuggest_core.Rank.{Candidate, Float}

abbrev pub thousandths : Float
thousandths = record {
  F = ℕ;
  of_u8 = λ n. n * 1000;
  literal = λ m k. m * 1000 / 10 ^ k;
  add = λ a b. a + b;
  mul = λ a b. a * b / 1000;
  div = λ a b. a * 1000 / b;
  clamp = λ x lo hi. max lo (min x hi);
  partial_cmp = λ a b. some (compare a b);
}

abbrev named : Text → List Text → Bool → Candidate
named insert names hidden = record {
  insert = insert;
  display = none;
  desc = none;
  priority = none;
  dangerous = false;
  deprecated = false;
  hidden = hidden;
  match_names = names;
}

abbrev offered : List Candidate
offered =
    named (codes "checkout ") (codes "checkout" ∷ codes "co" ∷ []) false
    ∷ named (codes "commit ") [] false
    ∷ named (codes "config") [] true
    ∷ []
