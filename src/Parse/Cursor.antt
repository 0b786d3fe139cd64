-- ===== src/Parse/Cursor.antt =====
-- The cursor kind of a parse.
use autosuggest_core.Parse.{
  options_first_of, classify_open, split_once, inline_kind, CursorKind, Walk, ParseState, has_args,
  walk, parse, active, command_argument_cursor, inline_cursor, has_subcommands, classify_cursor,
}
use autosuggest_core.Parse.Lookup.{active_directives, dash, equals, lookup_option}
use autosuggest_core.Parse.Seen.{lookup_option-walk, Declares, Pending, Pending-walk}
use autosuggest_core.Base.{
  ◌≡◌, inl, inr, refl, sym, subst, Bool, true, false, List, Option, none, some, get_elem?, last,
  is_empty, ◌&&◌, not, arith, Bool-cases, if◌then◌else◌, unwrap_or,
}
use autosuggest_core.Text.{Text, starts_with}
use autosuggest_core.Spec.{Subcommand, Opt, Arg, args, subcommands}
use autosuggest_core.Tokenize.{Token}
use autosuggest_core.Parse.Path.{active-parse}
use autosuggest_core.Parse.Positional.{
  args_of, Passed, PassedIn, walk-PassedIn, positional, command_argument_cursor-Passed,
}

-- What the kind of the cursor says of the parse.
abbrev pub Explains : ParseState → CursorKind → Type 0
Explains s CursorKind.subcommand = is_empty (subcommands (active s)) ≡ false
Explains s CursorKind.option = Unit {0}
Explains s CursorKind.empty = get_elem? (args (active s)) s.arg_index ≡ none
Explains s (CursorKind.option_argument opt) = (has_args opt ≡ true) × Declares s.command_path opt
Explains s (CursorKind.command_argument a) = get_elem? (args (active s)) s.arg_index ≡ some a

Explains-positional :
    (s : ParseState) → Explains s (positional (get_elem? (args (active s)) s.arg_index))
Explains-positional s = go (get_elem? (args (active s)) s.arg_index) refl
  where
    go : (o : Option Arg) → get_elem? (args (active s)) s.arg_index ≡ o → Explains s (positional o)
    go none e = e
    go (some a) e = e

Explains-inline_kind :
    (s : ParseState) (o : Option Opt)
    → ((opt : Opt) → o ≡ some opt → Declares s.command_path opt)
    → Explains s (inline_kind o)
unfolding inline_kind
Explains-inline_kind s none d = tt
Explains-inline_kind s (some opt) d = elim (Bool-cases (has_args opt)) [
  | inl e ↦ rw e (e, d opt refl)
  | inr e ↦ rw e tt
]

Explains-inline :
    (s : ParseState) (path : List Subcommand) (persistent : List Opt) (query : Text)
    → ((form : Text) (opt : Opt)
        → lookup_option path persistent form ≡ some opt
        → Declares s.command_path opt)
    → Explains s (inline_cursor path persistent query)
Explains-inline s path persistent query d = unfold inline_cursor in go (split_once query equals)
  where
    go :
        (o : Option (Text × Text))
        → Explains s (elim o [
          | none ↦ CursorKind.option
          | some (flag, value) ↦ inline_kind (lookup_option path persistent flag)
        ])
    go none = tt
    go (some (flag, value)) = Explains-inline_kind s (lookup_option path persistent flag) (d flag)

Explains-if :
    (s : ParseState) (b : Bool) (k l : CursorKind)
    → (b ≡ true → Explains s k)
    → (b ≡ false → Explains s l)
    → Explains s (if b then k else l)
Explains-if s true k l h g = h refl
Explains-if s false k l h g = g refl

has_subcommands_at :
    (path : List Subcommand) (n : Subcommand)
    → last path ≡ some n
    → has_subcommands path ≡ true
    → is_empty (subcommands n) ≡ false
has_subcommands_at path n e h =
    let q : has_subcommands path ≡ not (is_empty (subcommands n)) =
      unfold has_subcommands in rw (e, has_subcommands) in
    ground arith

module _ (s : ParseState) (w : Walk) (query : Text) (same_path : s.command_path ≡ w.path)
    (same_index : s.arg_index ≡ w.arg_index) (at_active : last w.path ≡ some (active s))
    (passed : PassedIn w) (pending : Pending w.path w.seen w.pending_arg)
    (declared : (form : Text) (opt : Opt)
      → lookup_option w.path w.persistent form ≡ some opt
      → Declares w.path opt) where
  positional-Explains :
      Explains s (unwrap_or (command_argument_cursor w.path w.arg_index) CursorKind.empty)
  positional-Explains =
      let p : Passed (args (active s)) w.arg_index =
        subst (λ o. Passed (args_of o) w.arg_index) at_active passed in
      rw (command_argument_cursor-Passed w.path w.arg_index (active s) at_active p) (
        subst (λ k. Explains s (positional (get_elem? (args (active s)) k))) same_index
          (Explains-positional s))

  classify_open-Explains : Explains s (classify_open w query)
  classify_open-Explains =
      unfold classify_open in
      Explains-if s (starts_with query dash) _ _
        (λ h.
          Explains-if s (options_first_of (active_directives w.path) && w.positional_started) _ _
            (λ k. positional-Explains)
            (λ k.
              Explains-inline s w.path w.persistent query
                (λ f o q. subst (λ p. Declares p o) (sym same_path) (declared f o q))))
        (λ h.
          Explains-if s (has_subcommands w.path && not w.positional_started) _ _
            (λ k. has_subcommands_at w.path (active s) at_active (ground arith))
            (λ k. positional-Explains))

  classify_cursor-Explains : Explains s (classify_cursor w query)
  classify_cursor-Explains = go w.pending_arg refl
    where
      go : (o : Option Opt) → w.pending_arg ≡ o → Explains s (classify_cursor w query)
      go none e = unfold classify_cursor in rw (e, classify_cursor) classify_open-Explains
      go (some opt) e =
          let (a, d, _) = subst (Pending w.path w.seen) e pending in
          unfold classify_cursor in
          rw (e, classify_cursor) (a, subst (λ p. Declares p opt) (sym same_path) d)

-- The kind of the cursor fits the parse: a subcommand is expected only of a node that has some, an
-- option argument belongs to a declared option that takes one, a command argument is the one that
-- the active node declares at the positional index, a variadic last argument included, and nothing
-- is expected only where the active node declares no argument at that index.
pub parse-Explains :
    (root : Subcommand) (committed : List Token) (query : Text)
    → Explains (parse root committed query) (parse root committed query).cursor
parse-Explains root committed query =
    let w = walk root committed in
    let a = active-parse root committed query in
    unfold parse in
    classify_cursor-Explains (parse root committed query) w query refl refl a
      (walk-PassedIn root committed) (Pending-walk root committed)
      (λ f o e. lookup_option-walk root committed f e)
