-- ===== src/Tests/Correct.antt =====
-- crates/core/src/correct at concrete command lines and rules.
use autosuggest_core.Base.{
  In, All, if◌then◌else◌, ◌≡◌, ◌≢◌, arith, refl, ◌↔◌, ◌⊎◌, true, false, List, [], ◌∷◌, none, some,
  inl, inr, here, is_empty, length,
}
use autosuggest_core.Base.Int.{pos}
use autosuggest_core.Base.Sort.{not_gt}
use autosuggest_core.Text.{Text, codes, text_eq, contains}
use autosuggest_core.Text.Laws.{text_eq_refl}
use autosuggest_core.Spec.{StringList, Command, Subcommand, of_list}
use autosuggest_core.Correct.Types.{
  Match, Rewrite, Rule, CorrectContext, context, CorrectedCommand, ok, err, CommandResolver,
  mock_resolver, RegexEngine, unknown_native_rule,
}
use autosuggest_core.Correct.Native.{tokens, no_command}
use autosuggest_core.Correct.{
  correct_with_limit, candidates, rank, by_priority, matches, rule_commands, normalized_original,
}
use autosuggest_core.Correct.Dedup.{Outranks}
use autosuggest_core.Correct.Proposed.{IsProposed}
use autosuggest_core.Correct.Ranked.{
  correct_with_limit-IsProposed, correct_with_limit-Represents, Represents,
}
use autosuggest_core.Correct.Errors.{FailsFirst, correct_with_limit-FailsFirst}
use autosuggest_core.Correct.Conditions.{Satisfies, matches-Satisfies}
use autosuggest_core.Correct.Near.{FixesCommand, no_command-FixesCommand}

-- An engine of plain texts: a regex matches where it occurs, and replaces the whole script.
abbrev pub plain_engine : RegexEngine
plain_engine = record {
  Regex = Text;
  build = λ p. if is_empty p then inr (codes "empty") else inl p;
  is_match = λ r text. contains text r;
  replace = λ r text new. if contains text r then new else text;
}

abbrev pub sudo : Rule
sudo = record {
  id = codes "sudo";
  description = none;
  priority = 80;
  native = false;
  match = some (record {
    script_starts_with = none;
    script_regex = none;
    stderr_contains = codes "denied" ∷ [];
    stderr_regex = none;
    exit_code_in = pos 1 ∷ [];
    command_exists = none;
  });
  rewrite = some (Rewrite.prefix (codes "sudo "));
}

-- A rule that proposes the same command as `sudo`, at a lower priority.
abbrev sudo_again : Rule
sudo_again = record sudo { id = codes "again"; priority = 10; match = none }

abbrev forced : Rule
forced = record sudo {
  id = codes "force";
  priority = 90;
  rewrite = some (Rewrite.insert_flag (codes "rm") (codes "-f"));
}

abbrev denied : CorrectContext
denied = context (codes "rm x") (codes "rm: denied") (some (pos 1))

abbrev rules : List Rule
rules = sudo_again ∷ sudo ∷ forced ∷ []

abbrev correction : Text → Rule → CorrectedCommand
correction command r = record {
  command = command;
  rule_id = r.id;
  description = none;
  priority = r.priority;
}

abbrev corrections : List CorrectedCommand
corrections = correction (codes "rm -f x") forced ∷ correction (codes "sudo rm x") sudo ∷ []

corrected : correct_with_limit plain_engine denied rules (mock_resolver []) 2 ≡ ok corrections
unfolding correct_with_limit candidates rank rule_commands context
corrected = refl

texts_differ : (a b : Text) → text_eq a b ≡ false → a ≢ b
texts_differ a b h e = absurd (let q = text_eq_refl b in let k = rw e at h in ground arith)

again_commands :
    rule_commands plain_engine denied (mock_resolver []) sudo_again ≡ ok (codes "sudo rm x" ∷ [])
unfolding rule_commands context
again_commands = refl

again_proposes :
    IsProposed plain_engine denied
      (mock_resolver [])
      rules
      (correction (codes "sudo rm x") sudo_again)
unfolding normalized_original context
again_proposes = (
  sudo_again,
  (
    here refl,
    (
      codes "sudo rm x" ∷ [],
      (
        again_commands,
        (
          here refl,
          (
            texts_differ (codes "sudo rm x") (codes "rm x") (unfold text_eq in refl),
            (texts_differ (codes "sudo rm x") [] (unfold text_eq in refl), (refl, (refl, refl))),
          ),
        ),
      ),
    ),
  ),
)

correct_with_limit-IsProposed_example :
    IsProposed plain_engine denied (mock_resolver []) rules (correction (codes "rm -f x") forced)
    × ((d : CorrectedCommand)
        → IsProposed plain_engine denied (mock_resolver []) rules d
        → d.command ≡ codes "rm -f x"
        → Outranks (correction (codes "rm -f x") forced) d)
correct_with_limit-IsProposed_example =
    correct_with_limit-IsProposed plain_engine denied rules (mock_resolver []) 2 corrections
      corrected (correction (codes "rm -f x") forced) (here refl)

correct_with_limit-Represents_example :
    Represents corrections (correction (codes "sudo rm x") sudo_again)
    ⊎ ((length corrections ≡ 2)
        × ((k : CorrectedCommand) × (IsProposed plain_engine denied (mock_resolver []) rules k
              × ((k.command ≡ codes "sudo rm x")
                  × All (λ c. not_gt (by_priority c k) ≡ true) corrections))))
correct_with_limit-Represents_example =
    correct_with_limit-Represents plain_engine denied rules (mock_resolver []) 2 corrections
      corrected (correction (codes "sudo rm x") sudo_again) again_proposes

abbrev mystery : Rule
mystery = record sudo { id = codes "mystery"; native = true }

correct_with_limit-FailsFirst_example :
    (correct_with_limit plain_engine denied (sudo ∷ mystery ∷ []) (mock_resolver []) 5
      ≡ err (unknown_native_rule (codes "mystery")))
    ↔ FailsFirst plain_engine denied
        (mock_resolver [])
        (unknown_native_rule (codes "mystery"))
        (sudo ∷ mystery ∷ [])
correct_with_limit-FailsFirst_example =
    correct_with_limit-FailsFirst plain_engine denied (mock_resolver []) (sudo ∷ mystery ∷ []) 5
      (unknown_native_rule (codes "mystery"))

abbrev denied_match : Match
denied_match = record {
  script_starts_with = some (codes "rm ");
  script_regex = some (codes "x");
  stderr_contains = codes "denied" ∷ [];
  stderr_regex = none;
  exit_code_in = pos 1 ∷ [];
  command_exists = none;
}

matches-Satisfies_example :
    (matches plain_engine (codes "sudo") denied_match denied ≡ ok true)
    ↔ Satisfies plain_engine denied_match denied
matches-Satisfies_example = matches-Satisfies plain_engine (codes "sudo") denied_match denied

abbrev pub path : CommandResolver
path = mock_resolver (codes "git" ∷ codes "grep" ∷ [])

no_command-FixesCommand_example :
    In (codes "git status") (no_command (context (codes "gti status") [] none) path)
    ↔ FixesCommand path (tokens (context (codes "gti status") [] none).script) (codes "git status")
no_command-FixesCommand_example =
    no_command-FixesCommand (context (codes "gti status") [] none) path (codes "git status")

abbrev command_of : Text → Command
command_of name = record {
  name = StringList.one name;
  description = none;
  options = [];
  args = [];
  requires_subcommand = false;
  parser_directives = none;
}

abbrev pub git : Subcommand
git =
    Subcommand.node (command_of (codes "git"))
      (of_list (Subcommand.node (command_of (codes "commit")) (of_list []) ∷ []))
