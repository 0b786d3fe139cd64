-- ===== src/Complete/Files.antt =====
-- crates/core/src/fs_source.rs: the entries of a directory that a partial path may become.
use autosuggest_core.Base.{
  Ordering, Bool, true, false, ◌&&◌, not, List, [], ◌∷◌, ◌++◌, Option, none, some, ◌==◌,
  if◌then◌else◌, is_empty,
}
use autosuggest_core.Base.Sort.{sort_by, then_with}
use autosuggest_core.Text.{Text, codes, text_eq, text_cmp, starts_with, strip_prefix}

pub data FsKind : Type 0 where
  files_and_dirs dirs_only : FsKind

pub record FsEntry : Type 0 where
  pub insert : Text
  pub display : Text
  pub is_dir : Bool

abbrev slash : Text
slash = b'/' ∷ []

-- `Path` with `Path::new`, `is_absolute` and `join`, the home directory, and `read_dir`: the names of
-- a directory that can be read, with whether each is a directory.
pub record FileSystem : Type 1 where
  pub PathBuf : Type 0
  pub of_text : Text → PathBuf
  pub to_text : PathBuf → Option Text
  pub is_absolute : PathBuf → Bool
  pub join : PathBuf → PathBuf → PathBuf
  pub home : Option PathBuf
  pub read_dir : PathBuf → Option (List (Text × Bool))

-- `split_partial`: up to the last slash, and behind it.
unfoldable pub split_partial : Text → Text × Text
split_partial [] = ([], [])
split_partial (c ∷ cs) =
    let (dir, file) = split_partial cs in
    if not (is_empty dir)
    then (c ∷ dir, file)
    else if c == b'/'
    then (c ∷ [], file)
    else ([], c ∷ file)

-- The body of the loop over the entries, for one that passes its guards.
unfoldable pub is_listed : Text → FsKind → Text × Bool → Bool
unfolding starts_with
is_listed file_prefix kind (name, is_dir) =
    not (starts_with name (b'.' ∷ []) && not (starts_with file_prefix (b'.' ∷ [])))
    && starts_with name file_prefix
    && (elim kind [ FsKind.files_and_dirs ↦ true | FsKind.dirs_only ↦ is_dir ])

unfoldable pub fs_entry : Text → Text × Bool → FsEntry
fs_entry dir_prefix (name, is_dir) = record {
  insert = dir_prefix ++ (name ++ (if is_dir then slash else []));
  display = name;
  is_dir = is_dir;
}

unfoldable pub keep_entries : Text → Text → FsKind → List (Text × Bool) → List FsEntry
unfolding is_listed fs_entry
keep_entries dir_prefix file_prefix kind [] = []
keep_entries dir_prefix file_prefix kind (e ∷ es) =
    let rest = keep_entries dir_prefix file_prefix kind es in
    if is_listed file_prefix kind e then fs_entry dir_prefix e ∷ rest else rest

-- `b.is_dir.cmp(&a.is_dir)`, then the names
unfoldable pub dirs_first : FsEntry → FsEntry → Ordering
unfolding text_cmp
dirs_first a b = then_with (descending a.is_dir b.is_dir) (text_cmp a.display b.display)
  where
    descending : Bool → Bool → Ordering
    descending true false = Ordering.lt
    descending false true = Ordering.gt
    descending _ _ = Ordering.eq

module _ (files : FileSystem) where
  unfoldable pub resolve_dir : files.PathBuf → Text → files.PathBuf
  unfolding strip_prefix text_eq
  resolve_dir cwd dir_prefix =
      let p = files.of_text dir_prefix in
      let otherwise = if files.is_absolute p then p else files.join cwd p in
      if is_empty dir_prefix then cwd else elim files.home [
        | none ↦ otherwise
        | some home ↦ elim (strip_prefix dir_prefix (codes "~/")) [
          | some rest ↦ files.join home (files.of_text rest)
          | none ↦ if text_eq dir_prefix (codes "~") then home else otherwise
        ]
      ]

  unfoldable pub list_entries : files.PathBuf → Text → FsKind → List FsEntry
  unfolding split_partial resolve_dir keep_entries dirs_first sort_by
  list_entries cwd partial kind =
      let (dir_prefix, file_prefix) = split_partial partial in
      elim (files.read_dir (resolve_dir cwd dir_prefix)) [
        | none ↦ []
        | some found ↦ sort_by dirs_first (keep_entries dir_prefix file_prefix kind found)
      ]
