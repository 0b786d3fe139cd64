-- ===== src/Spec.antt =====
-- crates/core/src/types: the completion specs that the engine walks.
-- Numbers carry the range of their Rust type as a remark: `u8` priorities, `u32` counts and `u64`
-- milliseconds are natural numbers here, and nothing in the modelled code does arithmetic on them.
pub mod Serde
pub mod Fields
pub mod RoundTrip
pub mod Unknown
use autosuggest_core.Base.{ℕ, Bool, List, [], ◌∷◌, Option, none, any}
use autosuggest_core.Text.{Text, text_eq}

-- A name: one text, or several of which the first is canonical.
pub data StringList : Type 0 where
  one : Text → StringList
  many : List Text → StringList

unfoldable pub canonical : StringList → Text
canonical (StringList.one s) = s
canonical (StringList.many []) = []
canonical (StringList.many (s ∷ ss)) = s

unfoldable pub all_names : StringList → List Text
all_names (StringList.one s) = s ∷ []
all_names (StringList.many ss) = ss

-- `name.all().iter().any(|n| n == form)`
unfoldable pub has_name : StringList → Text → Bool
unfolding all_names
has_name names form = any (λ n. text_eq n form) (all_names names)

pub record Suggestion : Type 0 where
  pub name : StringList
  pub display_name : Option Text
  pub insert_value : Option Text
  pub description : Option Text
  pub priority : Option ℕ
  pub is_dangerous : Option Bool
  pub hidden : Option Bool
  pub deprecated : Option Bool

-- The shorthand form, a bare string.
unfoldable pub from_name : Text → Suggestion
from_name name = record {
  name = StringList.one name;
  display_name = none;
  insert_value = none;
  description = none;
  priority = none;
  is_dangerous = none;
  hidden = none;
  deprecated = none;
}

pub data Template : Type 0 where
  filepaths folders history : Template

pub record GeneratorCache : Type 0 where
  pub ttl_ms : ℕ

pub record Generator : Type 0 where
  pub run : List Text
  pub split_on : Option Text
  pub trim : Option Bool
  pub extract : Option Text
  pub priority : Option ℕ
  pub cache : Option GeneratorCache

pub record Arg : Type 0 where
  pub name : Option Text
  pub description : Option Text
  pub is_optional : Bool
  pub is_variadic : Bool
  pub template : Option Template
  pub suggestions : List Suggestion
  pub generator : Option Generator
  pub is_command : Bool

pub data Repeatable : Type 0 where
  flag : Bool → Repeatable
  max : ℕ → Repeatable

pub record Opt : Type 0 where
  pub name : StringList
  pub description : Option Text
  pub args : List Arg
  pub is_required : Bool
  pub is_repeatable : Repeatable
  pub is_persistent : Bool
  pub requires_separator : Bool
  pub exclusive_on : List Text
  pub depends_on : List Text

pub record ParserDirectives : Type 0 where
  pub flags_are_posix_noncompliant : Bool
  pub options_must_precede_arguments : Bool
  pub option_arg_separators : List Text

-- The fields of a `Subcommand` but for the nested subcommands.
pub record Command : Type 0 where
  pub name : StringList
  pub description : Option Text
  pub options : List Opt
  pub args : List Arg
  pub requires_subcommand : Bool
  pub parser_directives : Option ParserDirectives

mutual
  pub data Subcommand : Type 0 where
    node : Command → Subcommands → Subcommand

  pub data Subcommands : Type 0 where
    nil : Subcommands
    cons : Subcommand → Subcommands → Subcommands

abbrev pub command : Subcommand → Command
command (Subcommand.node c ss) = c

abbrev pub to_list : Subcommands → List Subcommand
to_list Subcommands.nil = []
to_list (Subcommands.cons s ss) = s ∷ to_list ss

abbrev pub of_list : List Subcommand → Subcommands
of_list [] = Subcommands.nil
of_list (s ∷ ss) = Subcommands.cons s (of_list ss)

abbrev pub subcommands : Subcommand → List Subcommand
subcommands (Subcommand.node c ss) = to_list ss

abbrev pub options : Subcommand → List Opt
options s = (command s).options

abbrev pub args : Subcommand → List Arg
args s = (command s).args
