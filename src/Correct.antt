-- ===== src/Correct.antt =====
-- crates/core/src/correct/mod.rs: the correction engine.
pub mod Types
pub mod Resolver
pub mod Edits
pub mod Native
pub mod Conditions
pub mod Near
pub mod Installed
pub mod Typo
pub mod Proposed
pub mod Dedup
pub mod Ranked
pub mod Errors
use autosuggest_core.Base.{
  ℕ, zero, suc, ◌+◌, compare, Ordering, Bool, true, false, ◌&&◌, ◌||◌, not, List, [], ◌∷◌, ◌++◌,
  Option, none, some, inl, inr, leb, if◌then◌else◌, length, get_elem?, set, take, is_empty, any,
}
use autosuggest_core.Base.Int.{ℤ, int_cmp}
use autosuggest_core.Base.Sort.{sort_by, then_with}
use autosuggest_core.Text.{Text, codes, text_eq, text_cmp, starts_with, contains, join}
use autosuggest_core.Correct.Types.{
  Match, Rewrite, Rule, CorrectContext, CorrectedCommand, CorrectError, Result, ok, err, ◌>>=◌,
  CommandResolver, RegexEngine, invalid_regex, unknown_native_rule,
}
use autosuggest_core.Correct.Edits.{position, insert_at, is_text}
use autosuggest_core.Correct.Native.{tokens, space, no_command, subcommand_typo}

abbrev pub default_limit : ℕ
default_limit = 5

-- A test after which `return Ok(false)` leaves `matches`.
abbrev pub and_then : Result Bool → Result Bool → Result Bool
and_then (ok true) next = next
and_then (ok false) next = ok false
and_then (err e) next = err e

abbrev pub same_int : ℤ → ℤ → Bool
same_int a b = elim (int_cmp a b) [ Ordering.eq ↦ true | _ ↦ false ]

unfoldable pub exit_code_holds : List ℤ → Option ℤ → Bool
exit_code_holds [] code = true
exit_code_holds (c ∷ codes) none = false
exit_code_holds (c ∷ codes) (some code) = any (same_int code) (c ∷ codes)

-- `run_native`
unfoldable pub run_native : Text → CorrectContext → CommandResolver → Result (List Text)
unfolding text_eq no_command subcommand_typo
run_native rule_id ctx resolver =
    if text_eq rule_id (codes "no_command")
    then ok (no_command ctx resolver)
    else if text_eq rule_id (codes "subcommand_typo")
    then ok (subcommand_typo ctx ctx.specs)
    else err (unknown_native_rule rule_id)

-- The two rewrites that edit a token which `position` finds, and the one that names its index.
unfoldable pub insert_flag_after : List Text → Option ℕ → Text → List Text
unfolding is_text insert_at join
insert_flag_after toks none flag = []
insert_flag_after toks (some pos) flag =
    if is_text (get_elem? toks (pos + 1)) flag
    then []
    else join (insert_at toks (pos + 1) flag) space ∷ []

unfoldable pub swap_at : List Text → Option ℕ → Text → List Text
unfolding join
swap_at toks none to = []
swap_at toks (some pos) to = join (set toks pos to) space ∷ []

unfoldable pub replace_at : List Text → ℕ → Text → List Text
unfolding join is_text
replace_at toks index new =
    if leb (length toks) index
    then []
    else if is_text (get_elem? toks index) new
    then []
    else join (set toks index new) space ∷ []

module _ (engine : RegexEngine) where
  unfoldable pub compile : Text → Text → Result engine.Regex
  compile rule_id pattern = elim (engine.build pattern) [
    | inl regex ↦ ok regex
    | inr message ↦ err (invalid_regex rule_id pattern message)
  ]

  -- A regex condition of a rule, on the script or on stderr.
  unfoldable pub regex_holds : Text → Option Text → Text → Result Bool
  unfolding compile
  regex_holds rule_id none text = ok true
  regex_holds rule_id (some pattern) text = do
    regex ← compile rule_id pattern
    ok (engine.is_match regex text)

  unfoldable pub matches : Text → Match → CorrectContext → Result Bool
  unfolding regex_holds starts_with contains exit_code_holds
  matches rule_id m ctx =
      and_then
        (ok
          (elim m.script_starts_with [ none ↦ true | some prefix ↦ starts_with ctx.script prefix ]))
        (and_then (regex_holds rule_id m.script_regex ctx.script) (
          and_then
            (ok (
              is_empty m.stderr_contains
              || any (λ needle. contains ctx.stderr needle) m.stderr_contains))
            (and_then (regex_holds rule_id m.stderr_regex ctx.stderr)
              (ok (exit_code_holds m.exit_code_in ctx.exit_code)))))

  unfoldable pub apply_rewrite : Text → Rewrite → CorrectContext → Result (List Text)
  unfolding compile tokens position insert_flag_after swap_at replace_at starts_with text_eq
  apply_rewrite rule_id (Rewrite.insert_flag after flag) ctx =
      ok (insert_flag_after (tokens ctx.script) (position (tokens ctx.script) after) flag)
  apply_rewrite rule_id (Rewrite.replace_token index new) ctx =
      ok (replace_at (tokens ctx.script) index new)
  apply_rewrite rule_id (Rewrite.prefix prefix) ctx =
      ok (if starts_with ctx.script prefix then [] else (prefix ++ ctx.script) ∷ [])
  apply_rewrite rule_id (Rewrite.swap_subcommand from to) ctx =
      ok (swap_at (tokens ctx.script) (position (tokens ctx.script) from) to)
  apply_rewrite rule_id (Rewrite.regex_replace pattern new) ctx = do
    regex ← compile rule_id pattern
    let replaced = engine.replace regex ctx.script new
    ok (if text_eq replaced ctx.script then [] else replaced ∷ [])

  -- `match &r.match_`
  unfoldable pub match_holds : Rule → CorrectContext → Result Bool
  unfolding matches
  match_holds r ctx = elim r.match [ none ↦ ok true | some m ↦ matches r.id m ctx ]

  -- `commandExists`
  unfoldable pub command_holds : Option Match → CommandResolver → Bool
  command_holds none resolver = true
  command_holds (some m) resolver = elim m.command_exists [
    | none ↦ true
    | some cmd ↦ resolver.exists cmd
  ]

  -- The commands that one rule proposes.
  unfoldable pub rule_commands : CorrectContext → CommandResolver → Rule → Result (List Text)
  unfolding run_native match_holds command_holds apply_rewrite
  rule_commands ctx resolver r = if r.native then run_native r.id ctx resolver else (do
    holds ← match_holds r ctx
    if holds && command_holds r.match resolver
        then elim r.rewrite [ none ↦ ok [] | some w ↦ apply_rewrite r.id w ctx ]
        else ok [])

unfoldable pub normalized_original : CorrectContext → Text
unfolding tokens join
normalized_original ctx = join (tokens ctx.script) space

-- The loop over the commands of the rule `r`.
unfoldable pub push_commands : Text → Rule → List Text → List CorrectedCommand
unfolding text_eq
push_commands original r [] = []
push_commands original r (c ∷ cs) =
    let rest = push_commands original r cs in
    if text_eq c original || is_empty c
    then rest
    else record { command = c; rule_id = r.id; description = r.description; priority = r.priority }
      ∷ rest

module _ (engine : RegexEngine) (ctx : CorrectContext) (resolver : CommandResolver) where
  -- The loop over the rules.
  unfoldable pub candidates : List Rule → Result (List CorrectedCommand)
  unfolding rule_commands push_commands normalized_original
  candidates [] = ok []
  candidates (r ∷ rs) = do
    commands ← rule_commands engine ctx resolver r
    rest ← candidates rs
    ok (push_commands (normalized_original ctx) r commands ++ rest)

-- The order before the duplicates are removed, and the order of the result.
unfoldable pub by_command : CorrectedCommand → CorrectedCommand → Ordering
unfolding text_cmp
by_command a b =
    then_with (text_cmp a.command b.command)
      (then_with (compare b.priority a.priority) (text_cmp a.rule_id b.rule_id))

unfoldable pub by_priority : CorrectedCommand → CorrectedCommand → Ordering
unfolding text_cmp
by_priority a b =
    then_with (compare b.priority a.priority)
      (then_with (text_cmp a.rule_id b.rule_id) (text_cmp a.command b.command))

-- `Vec::dedup_by` on the command, after the kept element `kept`
unfoldable pub dedup_after : CorrectedCommand → List CorrectedCommand → List CorrectedCommand
unfolding text_eq
dedup_after kept [] = []
dedup_after kept (c ∷ cs) =
    if text_eq c.command kept.command then dedup_after kept cs else c ∷ dedup_after c cs

unfoldable pub dedup : List CorrectedCommand → List CorrectedCommand
unfolding dedup_after
dedup [] = []
dedup (c ∷ cs) = c ∷ dedup_after c cs

unfoldable pub rank : List CorrectedCommand → List CorrectedCommand
unfolding sort_by by_command by_priority dedup
rank cs = sort_by by_priority (dedup (sort_by by_command cs))

unfoldable pub correct_with_limit :
    RegexEngine → CorrectContext → List Rule → CommandResolver → ℕ → Result (List CorrectedCommand)
unfolding candidates rank
correct_with_limit engine ctx rules resolver limit = do
  found ← candidates engine ctx resolver rules
  ok (take limit (rank found))

unfoldable pub correct :
    RegexEngine → CorrectContext → List Rule → CommandResolver → Result (List CorrectedCommand)
unfolding correct_with_limit
correct engine ctx rules resolver = correct_with_limit engine ctx rules resolver default_limit
