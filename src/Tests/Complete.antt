-- ===== src/Tests/Complete.antt =====
-- crates/core/src/complete.rs and fs_source.rs at concrete inputs.
use autosuggest_core.Base.{In, ◌≡◌, refl, ◌↔◌, true, false, [], ◌∷◌, ◌++◌, none, some, here}
use autosuggest_core.Text.{Text, codes, starts_with}
use autosuggest_core.Spec.{Opt, Subcommand, StringList, Repeatable, of_list}
use autosuggest_core.Parse.{ParseState, CursorKind}
use autosuggest_core.Complete.{option_candidates, option_to_candidate}
use autosuggest_core.Complete.Files.{
  FsKind, FsEntry, FileSystem, list_entries, split_partial, resolve_dir, keep_entries, dirs_first,
}
use autosuggest_core.Complete.Valid.{IsOffered, IsInScope, option_candidates-IsOffered}
use autosuggest_core.Complete.Entries.{Fits, list_entries-Fits}

-- A file system with one directory, that has a directory and two files.
abbrev pub one_directory : FileSystem
one_directory = record {
  PathBuf = Text;
  of_text = λ t. t;
  to_text = λ p. some p;
  is_absolute = λ p. starts_with p (codes "/");
  join = λ a b. a ++ (codes "/" ++ b);
  home = some (codes "/home/user");
  read_dir =
      λ p. some ((codes "src", true) ∷ (codes "setup.py", false) ∷ (codes ".secret", false) ∷ []);
}

abbrev src_entry : FsEntry
src_entry = record { insert = codes "lib/src/"; display = codes "src"; is_dir = true }

src_listed :
    In src_entry (list_entries one_directory (codes "/repo") (codes "lib/s") FsKind.files_and_dirs)
unfolding list_entries split_partial resolve_dir keep_entries dirs_first
src_listed = here refl

list_entries-Fits_example : Fits (codes "lib/s") FsKind.files_and_dirs src_entry
list_entries-Fits_example =
    list_entries-Fits one_directory (codes "/repo") (codes "lib/s") FsKind.files_and_dirs src_entry
      src_listed

abbrev verbose : Opt
verbose = record {
  name = StringList.many (codes "-v" ∷ codes "--verbose" ∷ []);
  description = none;
  args = [];
  is_required = false;
  is_repeatable = Repeatable.flag false;
  is_persistent = true;
  requires_separator = false;
  exclusive_on = codes "-q" ∷ [];
  depends_on = codes "--log" ∷ [];
}

abbrev tool : Subcommand
tool =
    Subcommand.node
      (record {
        name = StringList.one (codes "tool");
        description = none;
        options = verbose ∷ [];
        args = [];
        requires_subcommand = false;
        parser_directives = none;
      })
      (of_list [])

abbrev verbose_state : ParseState
verbose_state = record {
  command_path = tool ∷ [];
  seen_options = codes "--log" ∷ [];
  persistent_options = verbose ∷ [];
  arg_index = 0;
  cursor = CursorKind.option;
  inline_value_prefix = none;
  root = tool;
}

option_candidates-IsOffered_example :
    In (option_to_candidate verbose) (option_candidates verbose_state) ↔ (
      (opt : Opt) × (IsInScope opt verbose_state
        × (IsOffered opt verbose_state.seen_options
            × (option_to_candidate verbose ≡ option_to_candidate opt))))
option_candidates-IsOffered_example =
    option_candidates-IsOffered verbose_state (option_to_candidate verbose)
