-- ===== src/Correct/Resolver.antt =====
-- crates/core/src/correct/resolver.rs: the resolver that scans the directories of $PATH. The file
-- system is a parameter.
use autosuggest_core.Base.{
  ℕ, ◌/◌, ◌%◌, ◌==◌, Bool, false, not, ◌&&◌, ◌||◌, List, [], ◌∷◌, ◌++◌, Option, none, some, any,
  filter, is_empty, unwrap_or, if◌then◌else◌,
}
use autosuggest_core.Text.{Text}
use autosuggest_core.Correct.Types.{CommandResolver}

-- What `std::fs::metadata` tells of a path.
pub record FileMetadata : Type 0 where
  pub is_file : Bool
  pub mode : ℕ

-- An entry of a directory, with `entry.metadata().ok()` and `entry.file_name().to_str()`.
pub record DirEntry : Type 0 where
  pub metadata : Option FileMetadata
  pub name : Option Text

-- `Path::join`, `std::fs` and the variable PATH in `std::env::split_paths`; a directory yields the
-- entries that can be read.
pub record PathSystem : Type 1 where
  pub PathBuf : Type 0
  pub join : PathBuf → Text → PathBuf
  pub metadata : PathBuf → Option FileMetadata
  pub read_dir : PathBuf → Option (List DirEntry)
  pub search_path : List PathBuf
  pub is_empty_path : PathBuf → Bool

-- `meta.is_file() && mode & 0o111 != 0`: one of the bits 0, 3 and 6.
unfoldable pub is_executable : FileMetadata → Bool
is_executable meta =
    meta.is_file && (meta.mode % 2 == 1 || meta.mode / 8 % 2 == 1 || meta.mode / 64 % 2 == 1)

-- What an entry adds to the commands.
unfoldable pub entry_command : DirEntry → List Text
unfolding is_executable
entry_command entry = elim entry.metadata [
  | none ↦ []
  | some meta ↦
      if is_executable meta then (elim entry.name [ none ↦ [] | some name ↦ name ∷ [] ]) else []
]

unfoldable pub entry_commands : List DirEntry → List Text
unfolding entry_command
entry_commands [] = []
entry_commands (entry ∷ entries) = entry_command entry ++ entry_commands entries

module _ (system : PathSystem) where
  unfoldable pub dirs_from_env : List (system.PathBuf)
  dirs_from_env = filter (λ p. not (system.is_empty_path p)) (system.search_path)

  unfoldable pub is_command_in : Text → system.PathBuf → Bool
  unfolding is_executable
  is_command_in cmd dir = elim (system.metadata (system.join dir cmd)) [
    | none ↦ false
    | some meta ↦ is_executable meta
  ]

  unfoldable pub exists_in : List (system.PathBuf) → Text → Bool
  unfolding is_command_in
  exists_in dirs cmd =
      if is_empty cmd || any (λ c. c == b'/') cmd
      then false
      else any (λ dir. is_command_in cmd dir) dirs

  unfoldable pub commands_in : List (system.PathBuf) → List Text
  unfolding entry_commands
  commands_in [] = []
  commands_in (dir ∷ dirs) = entry_commands (unwrap_or (system.read_dir dir) []) ++ commands_in dirs

  -- `PathCommandResolver::from_dirs`, and `from_env`
  unfoldable pub from_dirs : List (system.PathBuf) → CommandResolver
  unfolding exists_in commands_in
  from_dirs dirs = record { exists = λ cmd. exists_in dirs cmd; path_commands = commands_in dirs }

  unfoldable pub from_env : CommandResolver
  unfolding from_dirs dirs_from_env
  from_env = from_dirs dirs_from_env
