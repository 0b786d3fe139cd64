-- ===== src/Tests/Output.antt =====
-- crates/data/src/parse.rs at concrete outputs.
use autosuggest_core.Base.{◌≡◌, refl, [], ◌∷◌, none, some}
use autosuggest_core.Text.{Text, codes, join}
use autosuggest_core.Spec.{Generator}
use autosuggest_core.Output.{Captures, default_split_on, split, trim, parse_output}
use autosuggest_core.Output.Lines.{parse_output-join}

-- An engine whose only expression matches the whole of a text, with one group.
abbrev pub engine : Captures
engine = record {
  Regex = Text;
  build = λ pattern. some pattern;
  captures = λ re text. some (some text ∷ some text ∷ []);
}

abbrev pub branches : Generator
branches = record {
  run = codes "git" ∷ codes "branch" ∷ [];
  split_on = none;
  trim = none;
  extract = none;
  priority = none;
  cache = some (record { ttl_ms = 5000 });
}

split_test : split (codes "a\nb\n") (codes "\n") ≡ codes "a" ∷ codes "b" ∷ [] ∷ []
unfolding split
split_test = refl

split_long_test : split (codes "a::b:c::") (codes "::") ≡ codes "a" ∷ codes "b:c" ∷ [] ∷ []
unfolding split
split_long_test = refl

parse_output_test :
    parse_output engine branches (codes "  main\n\n dev \n") ≡ codes "main" ∷ codes "dev" ∷ []
unfolding parse_output
parse_output_test = refl

parse_output-join_example :
    parse_output engine branches (join (codes "main" ∷ codes "fix it" ∷ []) default_split_on)
    ≡ codes "main" ∷ codes "fix it" ∷ []
unfolding trim
parse_output-join_example =
    parse_output-join engine branches (codes "main" ∷ codes "fix it" ∷ []) refl refl
      ((refl, refl, refl), ((refl, refl, refl), tt))
