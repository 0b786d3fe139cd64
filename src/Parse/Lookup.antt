-- ===== src/Parse/Lookup.antt =====
-- crates/core/src/parse.rs: the look-ups of the walk, of subcommands, options and inline values.
use autosuggest_core.Base.{
  ℕ, ◌+◌, Bool, List, [], ◌∷◌, Option, none, some, if◌then◌else◌, get_elem?, last, is_empty, any,
  find, filter, ◌>>=◌,
}
use autosuggest_core.Text.{Text, text_eq, starts_with, split_once}
use autosuggest_core.Spec.{
  Subcommand, Opt, ParserDirectives, command, subcommands, options, args, has_name, canonical,
}

abbrev pub dash : Text
dash = b'-' ∷ []

abbrev pub double_dash : Text
double_dash = b'-' ∷ b'-' ∷ []

abbrev pub equals : Text
equals = b'=' ∷ []

-- `BTreeSet::contains` and `BTreeSet::insert` on the seen names; their order is never used.
unfoldable pub is_seen : List Text → Text → Bool
is_seen seen name = any (λ s. text_eq s name) seen

unfoldable pub mark_seen : List Text → Text → List Text
unfolding is_seen
mark_seen seen name = if is_seen seen name then seen else name ∷ seen

-- `collect_persistent`
unfoldable pub collect_persistent : Subcommand → List Opt
collect_persistent n = filter (λ (o : Opt). o.is_persistent) (options n)

-- `active_directives`: those of the deepest node that declares some.
unfoldable pub active_directives : List Subcommand → Option ParserDirectives
active_directives [] = none
active_directives (n ∷ path) = elim (active_directives path) [
  | some d ↦ some d
  | none ↦ (command n).parser_directives
]

-- `find_subcommand`
unfoldable pub find_subcommand : Option Subcommand → Text → Option Subcommand
unfolding has_name
find_subcommand parent text = do
  p ← parent
  find (λ s. has_name (command s).name text) (subcommands p)

-- `advance_arg_index`
unfoldable pub advance_arg_index : Option Subcommand → ℕ → ℕ
advance_arg_index none arg_index = arg_index + 1
advance_arg_index (some n) arg_index = elim (get_elem? (args n) arg_index) [
  | none ↦ arg_index + 1
  | some arg ↦ if arg.is_variadic then arg_index else arg_index + 1
]

-- `canonical_opt`
unfoldable pub canonical_opt : Opt → Text
unfolding canonical
canonical_opt opt = canonical opt.name

-- `lookup_option`: the options of the active node, then the inherited ones.
unfoldable pub find_option : List Opt → Text → Option Opt
unfolding has_name
find_option declared form = find (λ (o : Opt). has_name o.name form) declared

unfoldable pub local_option : Option Subcommand → Text → Option Opt
unfolding find_option
local_option none form = none
local_option (some n) form = find_option (options n) form

unfoldable pub lookup_option : List Subcommand → List Opt → Text → Option Opt
unfolding local_option find_option
lookup_option path persistent form = elim (local_option (last path) form) [
  | some o ↦ some o
  | none ↦ find_option persistent form
]

-- `split_inline`: the flag and the value at the first separator of the list that occurs.
unfoldable pub split_inline : Text → List Text → Option (Text × Text)
unfolding split_once starts_with text_eq
split_inline text [] = none
split_inline text (separator ∷ separators) =
    let rest = split_inline text separators in
    if text_eq separator (b' ' ∷ [])
    then rest
    else if is_empty separator
    then rest
    else elim (split_once text separator) [
      | none ↦ rest
      | some (flag, value) ↦ if starts_with text dash then some (flag, value) else rest
    ]

-- `inline_value_of`
unfoldable pub inline_value_of : Text → Option Text
unfolding split_once starts_with
inline_value_of query =
    if starts_with query dash
    then (do (flag, value) ← split_once query equals; some value)
    else none
