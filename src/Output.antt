-- ===== src/Output.antt =====
-- crates/data/src/parse.rs: the suggestions in what a generator printed.
-- The regex engine is a parameter: `Regex::new` and the groups of `Regex::captures`.
pub mod Split
pub mod Lines
use autosuggest_core.Base.{
  ℕ, zero, suc, ◌-◌, Bool, true, false, ◌&&◌, List, [], ◌∷◌, Option, none, some, if◌then◌else◌,
  is_empty, unwrap_or, ◌>>=◌, length, get_elem?, filter_map,
}
use autosuggest_core.Text.{Text, starts_with, is_whitespace}
use autosuggest_core.Spec.{Generator}

-- `Regex::new(pattern).ok()`, and the groups of the first match, of which group 0 is the whole.
pub record Captures : Type 1 where
  pub Regex : Type 0
  pub build : Text → Option Regex
  pub captures : Regex → Text → Option (List (Option Text))

abbrev pub default_split_on : Text
default_split_on = b'\n' ∷ []

abbrev pub onto_first : ℕ → List Text → List Text
onto_first c [] = (c ∷ []) ∷ []
onto_first c (piece ∷ pieces) = (c ∷ piece) ∷ pieces

-- `text.split(separator)` for a separator that is not empty: `skip` characters of it are still to be
-- passed over.
unfoldable pub split_from : Text → ℕ → Text → List Text
unfolding starts_with
split_from separator skip [] = [] ∷ []
split_from separator (suc skip) (c ∷ cs) = split_from separator skip cs
split_from separator zero (c ∷ cs) = elim (starts_with (c ∷ cs) separator) [
  | true ↦ [] ∷ split_from separator (length separator - 1) cs
  | false ↦ onto_first c (split_from separator zero cs)
]

unfoldable pub split : Text → Text → List Text
unfolding split_from
split text separator = split_from separator zero text

-- `text.trim()`
unfoldable pub trim_start : Text → Text
unfolding is_whitespace
trim_start [] = []
trim_start (c ∷ cs) = if is_whitespace c then trim_start cs else c ∷ cs

unfoldable pub trim_end : Text → Text
unfolding is_whitespace
trim_end [] = []
trim_end (c ∷ cs) =
    let rest = trim_end cs in if is_empty rest && is_whitespace c then [] else c ∷ rest

unfoldable pub trim : Text → Text
unfolding trim_start trim_end
trim text = trim_end (trim_start text)

unfoldable pub pieces_of : Generator → Text → List Text
unfolding split
pieces_of generator stdout =
    let split_on = unwrap_or generator.split_on default_split_on in
    if is_empty split_on then stdout ∷ [] else split stdout split_on

module _ (engine : Captures) where
  unfoldable pub value_of : Option (engine.Regex) → Text → Option Text
  value_of none piece = some piece
  value_of (some re) piece = do groups ← engine.captures re piece; group ← get_elem? groups 1; group

  -- The closure over the pieces.
  unfoldable pub suggestion_of : Bool → Option (engine.Regex) → Text → Option Text
  unfolding trim value_of
  suggestion_of trims extract piece = do
    value ← value_of extract (if trims then trim piece else piece)
    if is_empty value then none else some value

  unfoldable pub parse_output : Generator → Text → List Text
  unfolding pieces_of suggestion_of
  parse_output generator stdout =
      let extract = generator.extract >>= engine.build in
      filter_map (suggestion_of (unwrap_or generator.trim true) extract)
        (pieces_of generator stdout)
