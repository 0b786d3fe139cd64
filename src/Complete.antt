-- ===== src/Complete.antt =====
-- crates/core/src/complete.rs: the candidates at the cursor; with `complete_line` of
-- crates/core/src/lib.rs.
pub mod Files
pub mod Valid
pub mod Entries
use autosuggest_core.Base.{
  ℕ, Bool, true, false, ◌&&◌, not, List, [], ◌∷◌, ◌++◌, map, Option, none, some, ltb, if◌then◌else◌,
  is_empty, unwrap_or, any, all, filter, ◌⊎◌, inl, inr,
}
use autosuggest_core.Text.{Text, text_eq}
use autosuggest_core.Spec.{
  StringList, Subcommand, Opt, Arg, Suggestion, Template, Generator, Repeatable, Command, command,
  subcommands, options, canonical, all_names,
}
use autosuggest_core.Tokenize.{tokenize, query, committed}
use autosuggest_core.Parse.{ParseState, CursorKind, active, parse}
use autosuggest_core.Parse.Lookup.{is_seen, canonical_opt}
use autosuggest_core.Rank.{Candidate, Float, CompletionItem, rank_top_n, default_top_n}
use autosuggest_core.Complete.Files.{FsEntry, FsKind, FileSystem, list_entries}

abbrev space : Text
space = b' ' ∷ []

abbrev equals : Text
equals = b'=' ∷ []

-- `Candidate::simple`
unfoldable pub simple : Text → Candidate
simple insert = record {
  insert = insert;
  display = none;
  desc = none;
  priority = none;
  dangerous = false;
  deprecated = false;
  hidden = false;
  match_names = insert ∷ [];
}

unfoldable pub subcommand_candidate : Subcommand → Candidate
unfolding canonical all_names
subcommand_candidate s = record {
  insert = canonical (command s).name ++ space;
  display = some (canonical (command s).name);
  desc = (command s).description;
  priority = none;
  dangerous = false;
  deprecated = false;
  hidden = false;
  match_names = all_names (command s).name;
}

unfoldable pub subcommand_candidates : Subcommand → List Candidate
unfolding subcommand_candidate
subcommand_candidates n = map subcommand_candidate (subcommands n)

unfoldable pub repeats : Repeatable → Bool
repeats (Repeatable.flag b) = b
repeats (Repeatable.max n) = ltb 1 n

unfoldable pub option_is_valid : Opt → ParseState → Bool
unfolding canonical_opt repeats is_seen
option_is_valid opt state =
    if is_seen state.seen_options (canonical_opt opt) && not (repeats opt.is_repeatable)
    then false
    else if any (λ ex. is_seen state.seen_options ex) opt.exclusive_on
    then false
    else all (λ dep. is_seen state.seen_options dep) opt.depends_on

unfoldable pub option_to_candidate : Opt → Candidate
unfolding canonical all_names
option_to_candidate opt =
    let name = canonical opt.name in
    let takes_value = not (is_empty opt.args) in
    record {
      insert =
          if opt.requires_separator && takes_value
          then name ++ equals
          else if takes_value
          then name ++ space
          else name;
      display = some name;
      desc = opt.description;
      priority = none;
      dangerous = false;
      deprecated = false;
      hidden = false;
      match_names = all_names opt.name;
    }

-- Equality of names, as it is derived.
unfoldable pub same_names : List Text → List Text → Bool
unfolding text_eq
same_names [] [] = true
same_names (x ∷ xs) (y ∷ ys) = text_eq x y && same_names xs ys
same_names _ _ = false

unfoldable pub same_name : StringList → StringList → Bool
unfolding text_eq same_names
same_name (StringList.one a) (StringList.one b) = text_eq a b
same_name (StringList.many as1) (StringList.many bs) = same_names as1 bs
same_name _ _ = false

-- The options of the active node, then the inherited ones that none of them has the name of.
unfoldable pub offered_options : ParseState → List Opt
unfolding active same_name
offered_options state =
    let own = options (active state) in
    own
    ++ filter (λ (p : Opt). not (any (λ (o : Opt). same_name o.name p.name) own))
        state.persistent_options

unfoldable pub option_candidates : ParseState → List Candidate
unfolding offered_options option_is_valid option_to_candidate
option_candidates state =
    map option_to_candidate (filter (λ o. option_is_valid o state) (offered_options state))

pub data GeneratorError : Type 0 where
  not_allow_listed execution : Text → GeneratorError
  timeout empty_run : GeneratorError

-- The trait `GeneratorRunner`.
pub record GeneratorRunner : Type 0 where
  pub run : Generator → Text → List Text ⊎ GeneratorError

-- A static suggestion.
unfoldable pub suggestion_candidate : Suggestion → Candidate
unfolding canonical all_names
suggestion_candidate s =
    let name = canonical s.name in
    record {
      insert = unwrap_or s.insert_value name;
      display = some (unwrap_or s.display_name name);
      desc = s.description;
      priority = s.priority;
      dangerous = unwrap_or s.is_dangerous false;
      deprecated = unwrap_or s.deprecated false;
      hidden = unwrap_or s.hidden false;
      match_names = all_names s.name;
    }

unfoldable pub fs_candidate : FsEntry → Candidate
unfolding simple
fs_candidate e = record (simple e.insert) {
  display = some e.display;
  match_names = e.insert ∷ [];
  priority = some (if e.is_dir then 55 else 50);
}

unfoldable pub generated : Generator → List Text ⊎ GeneratorError → List Candidate
unfolding simple
generated g (inl values) =
    map (λ v. record (simple v) { priority = g.priority }) (filter (λ v. not (is_empty v)) values)
generated g (inr e) = []

-- The path that a template completes: the inline value, if it is there and not empty.
unfoldable pub partial_of : Option Text → Text → Text
partial_of none query = query
partial_of (some p) query = if is_empty p then query else p

module _ (files : FileSystem) (runner : Option GeneratorRunner) where
  unfoldable pub template_candidates : Option Template → Text → files.PathBuf → List Candidate
  unfolding list_entries fs_candidate
  template_candidates none partial cwd = []
  template_candidates (some Template.filepaths) partial cwd =
      map fs_candidate (list_entries files cwd partial FsKind.files_and_dirs)
  template_candidates (some Template.folders) partial cwd =
      map fs_candidate (list_entries files cwd partial FsKind.dirs_only)
  template_candidates (some Template.history) partial cwd = []

  -- `generator_to_candidates`, where both a generator and a runner are there
  unfoldable pub generator_candidates : Option Generator → files.PathBuf → List Candidate
  unfolding generated
  generator_candidates none cwd = []
  generator_candidates (some g) cwd = elim runner [
    | none ↦ []
    | some r ↦ elim (files.to_text cwd) [ none ↦ [] | some dir ↦ generated g (r.run g dir) ]
  ]

  unfoldable pub arg_candidates : Arg → ParseState → Text → files.PathBuf → List Candidate
  unfolding suggestion_candidate partial_of template_candidates generator_candidates
  arg_candidates arg state query cwd =
      map suggestion_candidate arg.suggestions
      ++ (template_candidates arg.template (partial_of state.inline_value_prefix query) cwd
          ++ generator_candidates arg.generator cwd)

  unfoldable pub option_argument_candidates :
      List Arg → ParseState → Text → files.PathBuf → List Candidate
  unfolding arg_candidates
  option_argument_candidates [] state query cwd = []
  option_argument_candidates (arg ∷ rest) state query cwd = arg_candidates arg state query cwd

  unfoldable pub collect_at : CursorKind → ParseState → Text → files.PathBuf → List Candidate
  unfolding subcommand_candidates active option_candidates option_argument_candidates arg_candidates
  collect_at CursorKind.subcommand state query cwd =
      subcommand_candidates (active state) ++ option_candidates state
  collect_at CursorKind.option state query cwd = option_candidates state
  collect_at (CursorKind.option_argument opt) state query cwd =
      option_argument_candidates opt.args state query cwd
  collect_at (CursorKind.command_argument arg) state query cwd = arg_candidates arg state query cwd
  collect_at CursorKind.empty state query cwd = []

  -- `collect_inner`
  unfoldable pub collect : ParseState → Text → files.PathBuf → List Candidate
  unfolding collect_at
  collect state query cwd = collect_at state.cursor state query cwd

  -- `complete_line`, and `complete_line_with_generators` where a runner is given
  unfoldable pub complete_line :
      (float : Float) → Subcommand → Text → ℕ → files.PathBuf → List (CompletionItem float)
  unfolding tokenize committed parse collect rank_top_n
  complete_line float spec line cursor cwd =
      let tokens = tokenize line cursor in
      let state = parse spec (committed tokens) (query tokens) in
      let effective_query = unwrap_or state.inline_value_prefix (query tokens) in
      rank_top_n float (collect state effective_query cwd) effective_query default_top_n
