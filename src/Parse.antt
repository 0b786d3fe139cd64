-- ===== src/Parse.antt =====
-- crates/core/src/parse.rs: the walk over the committed tokens of a line against a spec tree, and the
-- kind of the token at the cursor.
pub mod Lookup
pub mod Path
pub mod Descent
pub mod Inherited
pub mod Seen
pub mod Positional
pub mod Cursor
use autosuggest_core.Base.{
  ℕ, zero, suc, ◌+◌, Bool, true, false, ◌&&◌, not, List, [], ◌∷◌, ◌++◌, Option, none, some, ltb,
  leb, if◌then◌else◌, length, get_elem?, last, drop, is_empty, any, find, filter, unwrap_or,
  is_some, ◌>>=◌,
}
use autosuggest_core.Text.{Text, len, text_eq, starts_with, split_once}
use autosuggest_core.Spec.{
  Subcommand, Opt, Arg, ParserDirectives, Command, command, subcommands, options, args, has_name,
  canonical,
}
use autosuggest_core.Parse.Lookup.{
  dash, double_dash, equals, is_seen, mark_seen, collect_persistent, active_directives,
  find_subcommand, advance_arg_index, canonical_opt, find_option, local_option, lookup_option,
  split_inline, inline_value_of,
}
use autosuggest_core.Tokenize.{Token}

pub data CursorKind : Type 0 where
  subcommand option empty : CursorKind
  option_argument : Opt → CursorKind
  command_argument : Arg → CursorKind

-- The mutable variables of the walk in `parse`.
pub record Walk : Type 0 where
  pub path : List Subcommand
  pub seen : List Text
  pub persistent : List Opt
  pub arg_index : ℕ
  pub positional_started : Bool
  pub pending_arg : Option Opt

unfoldable pub has_args : Opt → Bool
has_args opt = not (is_empty opt.args)

-- Record an option that was looked up; `pends` says whether it then waits for its value.
unfoldable pub record_option : (Opt → Bool) → Option Opt → Walk → Walk
unfolding mark_seen canonical_opt
record_option pends none w = w
record_option pends (some opt) w = record w {
  seen = mark_seen w.seen (canonical_opt opt);
  pending_arg = if pends opt then some opt else w.pending_arg;
}

-- The flags of a cluster such as `-lah`, one by one: only the last may wait for a value.
unfoldable pub consume_cluster : Text → Walk → Walk
unfolding lookup_option record_option has_args
consume_cluster [] w = w
consume_cluster (c ∷ cs) w = consume_cluster cs (
    record_option (λ opt. is_empty cs && has_args opt)
      (lookup_option w.path w.persistent (b'-' ∷ c ∷ [])) w)

-- The option that stands in a token of its own.
unfoldable pub consume_plain : Text → Walk → Walk
unfolding lookup_option record_option has_args
consume_plain text w =
    record_option (λ opt. has_args opt && not opt.requires_separator)
      (lookup_option w.path w.persistent text) w

-- The option of `--flag=value`.
unfoldable pub consume_inline : Text → Walk → Walk
unfolding lookup_option record_option
consume_inline flag w = record_option (λ opt. false) (lookup_option w.path w.persistent flag) w

unfoldable pub separators_of : Option ParserDirectives → List Text
separators_of none = []
separators_of (some d) = d.option_arg_separators

unfoldable pub chaining_of : Option ParserDirectives → Bool
chaining_of none = false
chaining_of (some d) = d.flags_are_posix_noncompliant

unfoldable pub options_first_of : Option ParserDirectives → Bool
options_first_of none = false
options_first_of (some d) = d.options_must_precede_arguments

unfoldable pub is_short_cluster : Bool → Text → Bool
unfolding starts_with len
is_short_cluster chaining text =
    chaining && starts_with text dash && not (starts_with text double_dash) && ltb 2 (len text)

-- The three cases of `consume_option`: an inline value, a cluster, a plain option.
unfoldable pub consume_form : Option (Text × Text) → Bool → Text → Walk → Walk
unfolding consume_inline consume_cluster consume_plain
consume_form (some (flag, value)) cluster text w = consume_inline flag w
consume_form none true text w = consume_cluster (drop 1 text) w
consume_form none false text w = consume_plain text w

-- `consume_option`
unfoldable pub consume_option : Option ParserDirectives → Text → Walk → Walk
unfolding consume_form split_inline separators_of chaining_of is_short_cluster
consume_option directives text w =
    consume_form (split_inline text (separators_of directives))
      (is_short_cluster (chaining_of directives) text) text w

unfoldable pub is_option_like : Text → Bool
unfolding starts_with text_eq
is_option_like text =
    starts_with text dash && not (text_eq text dash) && not (text_eq text double_dash)

-- Step 3 of the loop, the descent to a subcommand, and step 4, a positional argument.
unfoldable pub descend_or_advance : Option Subcommand → Walk → Walk
unfolding collect_persistent advance_arg_index
descend_or_advance (some child) w = record w {
  path = w.path ++ child ∷ [];
  persistent = w.persistent ++ collect_persistent child;
  arg_index = 0;
}
descend_or_advance none w = record w {
  arg_index = advance_arg_index (last w.path) w.arg_index;
  positional_started = true;
}

unfoldable pub consume_word : Text → Walk → Walk
unfolding find_subcommand descend_or_advance
consume_word text w =
    descend_or_advance (if w.positional_started then none else find_subcommand (last w.path) text) w

-- The body of the loop over the committed tokens.
unfoldable pub walk_token : Walk → Token → Walk
unfolding active_directives options_first_of is_option_like consume_option consume_word
walk_token w token =
    let directives = active_directives w.path in
    let as_option =
      is_option_like token.text && not (options_first_of directives && w.positional_started) in
    if is_some w.pending_arg
    then record w { pending_arg = none }
    else if as_option
    then consume_option directives token.text w
    else consume_word token.text w

unfoldable pub walk_tokens : Walk → List Token → Walk
unfolding walk_token
walk_tokens w [] = w
walk_tokens w (token ∷ tokens) = walk_tokens (walk_token w token) tokens

unfoldable pub initial : Subcommand → Walk
unfolding collect_persistent
initial root = record {
  path = root ∷ [];
  seen = [];
  persistent = collect_persistent root;
  arg_index = 0;
  positional_started = false;
  pending_arg = none;
}

-- `command_argument_cursor`, with the variadic last argument that applies past its index.
unfoldable pub variadic_tail : List Arg → ℕ → Option CursorKind
variadic_tail arguments arg_index = do
  l ← last arguments
  if l.is_variadic && leb (length arguments) arg_index
      then some (CursorKind.command_argument l)
      else none

unfoldable pub command_argument_cursor : List Subcommand → ℕ → Option CursorKind
unfolding variadic_tail
command_argument_cursor path arg_index = do
  n ← last path
  elim (get_elem? (args n) arg_index) [
    | some arg ↦ some (CursorKind.command_argument arg)
    | none ↦ variadic_tail (args n) arg_index
  ]

-- The `--opt=<value>` part of `classify_cursor`.
unfoldable pub inline_kind : Option Opt → CursorKind
unfolding has_args
inline_kind none = CursorKind.option
inline_kind (some opt) = if has_args opt then CursorKind.option_argument opt else CursorKind.option

unfoldable pub inline_cursor : List Subcommand → List Opt → Text → CursorKind
unfolding split_once lookup_option inline_kind
inline_cursor path persistent query = elim (split_once query equals) [
  | none ↦ CursorKind.option
  | some (flag, value) ↦ inline_kind (lookup_option path persistent flag)
]

unfoldable pub has_subcommands : List Subcommand → Bool
has_subcommands path = elim (last path) [ none ↦ false | some n ↦ not (is_empty (subcommands n)) ]

-- `classify_cursor`, of the variables at the end of the walk: a pending option comes first.
unfoldable pub classify_open : Walk → Text → CursorKind
unfolding active_directives options_first_of command_argument_cursor inline_cursor has_subcommands
    starts_with
classify_open w query =
    let positional = unwrap_or (command_argument_cursor w.path w.arg_index) CursorKind.empty in
    if starts_with query dash
    then (if options_first_of (active_directives w.path) && w.positional_started
        then positional
        else inline_cursor w.path w.persistent query)
    else if has_subcommands w.path && not w.positional_started
    then CursorKind.subcommand
    else positional

unfoldable pub classify_cursor : Walk → Text → CursorKind
unfolding classify_open
classify_cursor w query = elim w.pending_arg [
  | some opt ↦ CursorKind.option_argument opt
  | none ↦ classify_open w query
]

pub record ParseState : Type 0 where
  pub command_path : List Subcommand
  pub seen_options : List Text
  pub persistent_options : List Opt
  pub arg_index : ℕ
  pub cursor : CursorKind
  pub inline_value_prefix : Option Text
  pub root : Subcommand

unfoldable pub active : ParseState → Subcommand
active s = unwrap_or (last s.command_path) s.root

-- The walk that `parse` makes: `argv[0]` is skipped.
unfoldable pub walk : Subcommand → List Token → Walk
unfolding walk_tokens initial
walk root committed = walk_tokens (initial root) (drop 1 committed)

unfoldable pub parse : Subcommand → List Token → Text → ParseState
unfolding walk classify_cursor inline_value_of
parse root committed query =
    let w = walk root committed in
    record {
      command_path = w.path;
      seen_options = w.seen;
      persistent_options = w.persistent;
      arg_index = w.arg_index;
      cursor = classify_cursor w query;
      inline_value_prefix = inline_value_of query;
      root = root;
    }
