-- ===== src/Correct/Types.antt =====
-- crates/core/src/correct: the rules (rule.rs), the context and the result of a correction, and what
-- it is given: a command resolver (resolver.rs) and a regex engine.
use autosuggest_core.Base.{◌++◌, ℕ, Bool, List, [], Option, none, any, ◌⊎◌, ◌≡◌, inl, inr, refl}
use autosuggest_core.Base.Int.{ℤ}
use autosuggest_core.Text.{codes, Text, text_eq}
use autosuggest_core.Spec.{Subcommand}

-- The conditions of a rule, all of which must hold; an empty list is an absent condition.
pub record Match : Type 0 where
  pub script_starts_with : Option Text
  pub script_regex : Option Text
  pub stderr_contains : List Text
  pub stderr_regex : Option Text
  pub exit_code_in : List ℤ
  pub command_exists : Option Text

pub data Rewrite : Type 0 where
  insert_flag : Text → Text → Rewrite
  replace_token : ℕ → Text → Rewrite
  prefix : Text → Rewrite
  swap_subcommand : Text → Text → Rewrite
  regex_replace : Text → Text → Rewrite

pub record Rule : Type 0 where
  pub id : Text
  pub description : Option Text
  pub priority : ℕ
  pub native : Bool
  pub match : Option Match
  pub rewrite : Option Rewrite

pub record CorrectContext : Type 0 where
  pub script : Text
  pub stderr : Text
  pub exit_code : Option ℤ
  pub cwd : Option Text
  pub env : Option (List (Text × Text))
  pub specs : List Subcommand

-- `CorrectContext::new`
unfoldable pub context : Text → Text → Option ℤ → CorrectContext
context script stderr exit_code = record {
  script = script;
  stderr = stderr;
  exit_code = exit_code;
  cwd = none;
  env = none;
  specs = [];
}

pub record CorrectedCommand : Type 0 where
  pub command : Text
  pub rule_id : Text
  pub description : Option Text
  pub priority : ℕ

pub data CorrectError : Type 0 where
  invalid_regex : Text → Text → Text → CorrectError
  unknown_native_rule : Text → CorrectError

-- `Display` for the errors
unfoldable pub error_message : CorrectError → Text
error_message (CorrectError.invalid_regex rule_id pattern message) =
    codes "rule `"
    ++ (rule_id ++ (codes "` has invalid regex `" ++ (pattern ++ (codes "`: " ++ message))))
error_message (CorrectError.unknown_native_rule rule_id) =
    codes "no native implementation for rule id `" ++ (rule_id ++ codes "`")

pub data Result {ℓ} (A : Type ℓ) : Type ℓ where
  ok : A → Result A
  err : CorrectError → Result A

infixl 5 ◌>>=◌
abbrev pub ◌>>=◌ {ℓ κ} : {A : Type ℓ} {B : Type κ} → Result A → (A → Result B) → Result B
ok a >>= f = f a
err e >>= f = err e

-- The trait `CommandResolver`.
pub record CommandResolver : Type 0 where
  pub exists : Text → Bool
  pub path_commands : List Text

-- `MockCommandResolver`
unfoldable pub mock_resolver : List Text → CommandResolver
unfolding text_eq
mock_resolver commands = record {
  exists = λ cmd. any (λ c. text_eq c cmd) commands;
  path_commands = commands;
}

-- What the engine uses of the `regex` crate: `Regex::new`, with the message of its error,
-- `is_match` and `replace`.
pub record RegexEngine : Type 1 where
  pub Regex : Type 0
  pub build : Text → Regex ⊎ Text
  pub is_match : Regex → Text → Bool
  pub replace : Regex → Text → Text → Text

pub Result-cases {ℓ} :
    {A : Type ℓ} (r : Result A) → ((a : A) × (r ≡ ok a)) ⊎ ((e : CorrectError) × (r ≡ err e))
Result-cases (ok a) = inl (a, refl)
Result-cases (err e) = inr (e, refl)
