-- ===== src/Daemon/Load.antt =====
-- crates/daemon/src/load.rs: the specs and the rules that lie in a directory. The file system and the
-- JSON of a file are parameters.
use autosuggest_core.Base.{
  Bool, true, false, not, ◌&&◌, List, [], ◌∷◌, Option, none, some, ◌⊎◌, inl, inr, if◌then◌else◌,
  Ordering,
}
use autosuggest_core.Base.Sort.{sort_by}
use autosuggest_core.Text.{Text, codes, text_eq}

-- An error of the file system: `ErrorKind::NotFound`, or another.
pub data IoError : Type 0 where
  not_found : IoError
  other : Text → IoError

-- What a directory yields for an entry: an error, or the entry, whose `file_type` may fail, with
-- whether it is a file, its path, and its name in `to_string_lossy`.
pub record Entry (PathBuf : Type 0) : Type 0 where
  pub path : PathBuf
  pub name : Text
  pub is_file : Bool ⊎ IoError

-- `Path` with its order, `std::fs`, and the variable `AUTOSUGGEST_ALLOW_RELATIVE_DATA_DIRS`;
-- `is_symlink` is none where `symlink_metadata` fails.
pub record Disk : Type 1 where
  pub PathBuf : Type 0
  pub Bytes : Type 0
  pub path_cmp : PathBuf → PathBuf → Ordering
  pub is_absolute : PathBuf → Bool
  pub allow_relative : Option Text
  pub is_symlink : PathBuf → Option Bool
  pub read_dir : PathBuf → List (Entry PathBuf ⊎ IoError) ⊎ IoError
  pub read : PathBuf → Bytes ⊎ IoError

abbrev pub spec_suffix : Text
spec_suffix = codes ".spec.json"

abbrev pub rule_suffix : Text
rule_suffix = codes ".rule.json"

-- `text.ends_with(suffix)`
unfoldable pub ends_with : Text → Text → Bool
unfolding text_eq
ends_with [] suffix = text_eq [] suffix
ends_with (c ∷ cs) suffix = if text_eq (c ∷ cs) suffix then true else ends_with cs suffix

abbrev pub relative_reason : Text
relative_reason = codes "path must be absolute unless AUTOSUGGEST_ALLOW_RELATIVE_DATA_DIRS=1"

abbrev pub symlink_reason : Text
symlink_reason = codes "directory must not be a symlink"

module _ (disk : Disk) where
  pub data LoadError : Type 0 where
    io : disk.PathBuf → IoError → LoadError
    parse : disk.PathBuf → Text → LoadError
    untrusted_dir : disk.PathBuf → Text → LoadError

  unfoldable pub allow_relative_data_dirs : Bool
  unfolding text_eq
  allow_relative_data_dirs = elim (disk.allow_relative) [
    | none ↦ false
    | some v ↦ text_eq v (codes "1")
  ]

  -- Why a directory is refused, if it is.
  unfoldable pub validate_data_dir : disk.PathBuf → Option LoadError
  unfolding allow_relative_data_dirs
  validate_data_dir dir =
      if not (disk.is_absolute dir) && not allow_relative_data_dirs
      then some (LoadError.untrusted_dir dir relative_reason)
      else (elim (disk.is_symlink dir) [
        | none ↦ none
        | some link ↦ if link then some (LoadError.untrusted_dir dir symlink_reason) else none
      ])

  -- The path of an entry, if it is a file with the suffix, in front of those of the later entries.
  unfoldable pub push_path :
      Text → Entry disk.PathBuf → Bool → List (disk.PathBuf) → List (disk.PathBuf)
  unfolding ends_with
  push_path suffix entry is_file paths =
      if is_file && ends_with entry.name suffix then entry.path ∷ paths else paths

  unfoldable pub matching_paths :
      Text → List (Entry disk.PathBuf ⊎ IoError) → List (disk.PathBuf) ⊎ IoError
  unfolding push_path
  matching_paths suffix [] = inl []
  matching_paths suffix (inr e ∷ entries) = inr e
  matching_paths suffix (inl entry ∷ entries) = elim entry.is_file [
    | inr e ↦ inr e
    | inl is_file ↦ elim (matching_paths suffix entries) [
      | inr e ↦ inr e
      | inl paths ↦ inl (push_path suffix entry is_file paths)
    ]
  ]

  unfoldable pub collect_paths : disk.PathBuf → Text → List (disk.PathBuf) ⊎ IoError
  unfolding matching_paths
  collect_paths dir suffix = elim (disk.read_dir dir) [
    | inr e ↦ inr e
    | inl entries ↦ elim (matching_paths suffix entries) [
      | inr e ↦ inr e
      | inl paths ↦ inl (sort_by (disk.path_cmp) paths)
    ]
  ]

  module _ {T : Type 0} (from_slice : disk.Bytes → T ⊎ Text) where
    unfoldable pub load_file : disk.PathBuf → T ⊎ LoadError
    load_file path = elim (disk.read path) [
      | inr e ↦ inr (LoadError.io path e)
      | inl bytes ↦ elim (from_slice bytes) [
        | inr m ↦ inr (LoadError.parse path m)
        | inl value ↦ inl value
      ]
    ]

    -- The loop of `load_dir`.
    unfoldable pub load_files : List (disk.PathBuf) → List T ⊎ LoadError
    unfolding load_file
    load_files [] = inl []
    load_files (path ∷ paths) = elim (load_file path) [
      | inr e ↦ inr e
      | inl value ↦ elim (load_files paths) [ inr e ↦ inr e | inl values ↦ inl (value ∷ values) ]
    ]

    -- Behind the validation.
    unfoldable pub load_paths : disk.PathBuf → List (disk.PathBuf) ⊎ IoError → List T ⊎ LoadError
    unfolding load_files
    load_paths dir (inl paths) = load_files paths
    load_paths dir (inr IoError.not_found) = inl []
    load_paths dir (inr (IoError.other e)) = inr (LoadError.io dir (IoError.other e))

    unfoldable pub load_dir : disk.PathBuf → Text → List T ⊎ LoadError
    unfolding validate_data_dir collect_paths load_paths
    load_dir dir suffix = elim (validate_data_dir dir) [
      | some e ↦ inr e
      | none ↦ load_paths dir (collect_paths dir suffix)
    ]
