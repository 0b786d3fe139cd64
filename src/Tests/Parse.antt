-- ===== src/Tests/Parse.antt =====
-- crates/core/src/parse.rs at concrete lines, against a small spec of `git`.
use autosuggest_core.Base.{refl, inl, ◌≡◌, Bool, true, false, List, [], ◌∷◌, none, some}
use autosuggest_core.Text.{starts_with, Text, codes}
use autosuggest_core.Spec.{StringList, Subcommand, Opt, Arg, Repeatable, of_list}
use autosuggest_core.Tokenize.{Token}
use autosuggest_core.Parse.{parse}
use autosuggest_core.Parse.Descent.{Descends, parse-Descends}
use autosuggest_core.Parse.Cursor.{Explains, parse-Explains}

abbrev token : Text → Token
token text = record { text = text; raw = text; start = 0; stop = 0; quoted = false }

abbrev branch_arg : Arg
branch_arg = record {
  name = some (codes "branch");
  description = none;
  is_optional = false;
  is_variadic = true;
  template = none;
  suggestions = [];
  generator = none;
  is_command = false;
}

abbrev option_of : List Text → List Arg → Bool → Opt
option_of names declared persistent = record {
  name = StringList.many names;
  description = none;
  args = declared;
  is_required = false;
  is_repeatable = Repeatable.flag false;
  is_persistent = persistent;
  requires_separator = false;
  exclusive_on = [];
  depends_on = [];
}

abbrev git : Subcommand
git =
    Subcommand.node
      (record {
        name = StringList.one (codes "git");
        description = none;
        options = option_of (codes "--verbose" ∷ []) [] true ∷ [];
        args = [];
        requires_subcommand = true;
        parser_directives = none;
      })
      (of_list (
        Subcommand.node
          (record {
            name = StringList.many (codes "checkout" ∷ codes "co" ∷ []);
            description = none;
            options = option_of (codes "-b" ∷ codes "--branch" ∷ []) (branch_arg ∷ []) false ∷ [];
            args = branch_arg ∷ [];
            requires_subcommand = false;
            parser_directives = none;
          })
          (of_list [])
        ∷ []))

-- `git co -b`, behind which the name of a branch is expected.
abbrev branch_line : List Token
branch_line = token (codes "git") ∷ token (codes "co") ∷ token (codes "--branch") ∷ []

-- `git --verbose co main`, behind which another branch may stand.
abbrev verbose_line : List Token
verbose_line =
    token (codes "git") ∷ token (codes "--verbose") ∷ token (codes "co") ∷ token (codes "main") ∷ []

parse-Explains_example :
    Explains (parse git verbose_line (codes "de")) (parse git verbose_line (codes "de")).cursor
parse-Explains_example = parse-Explains git verbose_line (codes "de")

-- `git co main`, whose last word is no subcommand.
parse-Descends_example :
    (path : List Subcommand) × (Descends git (token (codes "co") ∷ token (codes "main") ∷ []) path
      × ((parse git
            (token (codes "git") ∷ token (codes "co") ∷ token (codes "main") ∷ [])
            []).command_path
          ≡ git ∷ path))
unfolding starts_with
parse-Descends_example =
    parse-Descends git (token (codes "git") ∷ token (codes "co") ∷ token (codes "main") ∷ []) []
      (inl refl, (inl refl, tt))
