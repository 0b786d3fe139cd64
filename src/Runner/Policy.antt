-- ===== src/Runner/Policy.antt =====
-- crates/data/src/runner.rs: which programs a runner may start. The file system is a parameter.
use autosuggest_core.Base.{
  ℕ, ◌/◌, ◌%◌, ◌==◌, Bool, false, not, ◌||◌, List, [], ◌∷◌, Option, none, some, Ordering,
  if◌then◌else◌, is_empty, unwrap_or, ◌>>=◌, find, any, filter_map, find_map,
}
use autosuggest_core.Text.{Text, codes, text_eq}

-- What `std::fs::metadata` tells of a path: `is_file` and the permission bits.
pub record Metadata : Type 0 where
  pub is_file : Bool
  pub mode : ℕ

-- `PathBuf` with its order, `std::fs`, `std::env::join_paths`, and the last instant that an `Instant`
-- can hold.
pub record System : Type 1 where
  pub PathBuf : Type 0
  pub OsString : Type 0
  pub of_text : Text → PathBuf
  pub join : PathBuf → Text → PathBuf
  pub parent : PathBuf → Option PathBuf
  pub path_cmp : PathBuf → PathBuf → Ordering
  pub metadata : PathBuf → Option Metadata
  pub canonicalize : PathBuf → Option PathBuf
  pub join_paths : List PathBuf → Option OsString
  pub last_instant : ℕ

abbrev pub default_allow_list : List Text
default_allow_list =
    codes "git"
    ∷ codes "ls"
    ∷ codes "find"
    ∷ codes "cargo"
    ∷ codes "npm"
    ∷ codes "docker"
    ∷ codes "make"
    ∷ codes "brew"
    ∷ codes "echo"
    ∷ []

abbrev pub trusted_program_dirs : List Text
trusted_program_dirs =
    codes "/usr/bin"
    ∷ codes "/bin"
    ∷ codes "/usr/sbin"
    ∷ codes "/sbin"
    ∷ codes "/opt/homebrew/bin"
    ∷ codes "/usr/local/bin"
    ∷ []

-- `mode & 0o111 != 0`: one of the bits 0, 3 and 6.
unfoldable pub is_executable_meta : Metadata → Bool
is_executable_meta meta = meta.mode % 2 == 1 || meta.mode / 8 % 2 == 1 || meta.mode / 64 % 2 == 1

unfoldable pub has_path_separator : Text → Bool
has_path_separator program = any (λ c. c == b'/') program || any (λ c. c == b'\\') program

module _ (system : System) where
  pub record AllowedProgram : Type 0 where
    pub requested : Text
    pub executable : system.PathBuf

  unfoldable pub is_executable_file : system.PathBuf → Bool
  unfolding is_executable_meta
  is_executable_file path = elim (system.metadata path) [
    | none ↦ false
    | some meta ↦ if not meta.is_file then false else is_executable_meta meta
  ]

  unfoldable pub canonicalize_if_possible : system.PathBuf → system.PathBuf
  canonicalize_if_possible path = unwrap_or (system.canonicalize path) path

  unfoldable pub executable_at : system.PathBuf → Option (system.PathBuf)
  unfolding is_executable_file canonicalize_if_possible
  executable_at path =
      if is_executable_file path then some (canonicalize_if_possible path) else none

  unfoldable pub resolve_on_path : Text → Option (system.PathBuf)
  unfolding executable_at
  resolve_on_path program =
      find_map (λ dir. executable_at (system.join (system.of_text dir) program))
        trusted_program_dirs

  unfoldable pub executable_of : Text → Option (system.PathBuf)
  unfolding executable_at resolve_on_path has_path_separator
  executable_of program =
      if has_path_separator program
      then executable_at (system.of_text program)
      else resolve_on_path program

  unfoldable pub resolve_allowed_program : Text → Option AllowedProgram
  unfolding executable_of
  resolve_allowed_program program = if is_empty program then none else (do
    executable ← executable_of program
    some (record { requested = program; executable = executable }))

  -- Into a `BTreeSet`: its elements in order, each once.
  unfoldable pub insert_path : system.PathBuf → List (system.PathBuf) → List (system.PathBuf)
  insert_path path [] = path ∷ []
  insert_path path (p ∷ ps) =
      let rest = insert_path path ps in
      elim (system.path_cmp path p) [
        | Ordering.lt ↦ path ∷ p ∷ ps
        | Ordering.eq ↦ p ∷ ps
        | Ordering.gt ↦ p ∷ rest
      ]

  unfoldable pub path_set : List (system.PathBuf) → List (system.PathBuf) → List (system.PathBuf)
  unfolding insert_path
  path_set acc [] = acc
  path_set acc (p ∷ ps) = path_set (insert_path p acc) ps

  unfoldable pub path_env_for_allow_list : List AllowedProgram → Option (system.OsString)
  unfolding path_set
  path_env_for_allow_list allow_list =
      let paths =
        path_set [] (filter_map (λ program. system.parent (program.executable)) allow_list) in
      if is_empty paths then none else system.join_paths paths

  unfoldable pub allowed_executable : List AllowedProgram → Text → Option (system.PathBuf)
  allowed_executable allow_list program = do
    entry ← find (λ entry. text_eq (entry.requested) program) allow_list
    some (entry.executable)
