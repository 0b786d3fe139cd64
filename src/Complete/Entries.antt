-- ===== src/Complete/Entries.antt =====
-- crates/core/src/fs_source.rs: what a listed entry has to do with the partial path.
use autosuggest_core.Base.{
  In, ◌≡◌, ℕ, refl, sym, ap, subst, ◌∙◌, inl, inr, Bool, true, false, List, [], ◌∷◌, ◌++◌,
  append_assoc, arith, Bool-cases, Option-cases, here, there, not, ◌==◌, if◌then◌else◌, is_empty,
}
use autosuggest_core.Base.Sort.{In-sort_by}
use autosuggest_core.Text.{Text}
use autosuggest_core.Text.Laws.{starts_with-rest}
use autosuggest_core.Complete.Files.{
  FsKind, FsEntry, FileSystem, split_partial, is_listed, fs_entry, keep_entries, dirs_first,
  resolve_dir, list_entries,
}

abbrev joined : Text × Text → Text
joined p = p.0 ++ p.1

split_step :
    (c : ℕ) (b : Bool) (dir file : Text)
    → joined (
        if◌then◌else◌ {A = Text × Text}
          (not (is_empty dir))
          (c ∷ dir, file)
          (if◌then◌else◌ {A = Text × Text} b (c ∷ [], file) ([], c ∷ file)))
      ≡ c ∷ (dir ++ file)
split_step c true [] file = refl
split_step c false [] file = refl
split_step c b (d ∷ ds) file = refl

split_partial-append :
    (partial : Text) → (split_partial partial).0 ++ (split_partial partial).1 ≡ partial
unfolding split_partial
split_partial-append [] = refl
split_partial-append (c ∷ cs) =
    split_step c (c == b'/') (split_partial cs).0 (split_partial cs).1
    ∙ ap (λ t. c ∷ t) (split_partial-append cs)

keep_entries_lem :
    (dir file : Text) (kind : FsKind) (es : List (Text × Bool)) (e : FsEntry)
    → In e (keep_entries dir file kind es)
    → (x : Text × Bool) × (In x es × ((is_listed file kind x ≡ true) × (e ≡ fs_entry dir x)))
unfolding keep_entries
keep_entries_lem dir file kind [] e m = elim m [ ]
keep_entries_lem dir file kind (x ∷ xs) e m = elim (Bool-cases (is_listed file kind x)) [
  | inl h ↦ first h (keep_entries_lem dir file kind xs e) (rw h at m)
  | inr h ↦ later (keep_entries_lem dir file kind xs e (rw h at m))
]
  where
    later :
        ((y : Text × Bool) × (In y xs × ((is_listed file kind y ≡ true) × (e ≡ fs_entry dir y))))
        → (y : Text × Bool) × (In y (x ∷ xs)
            × ((is_listed file kind y ≡ true) × (e ≡ fs_entry dir y)))
    later (y, (n, w)) = (y, (there n, w))

    first :
        is_listed file kind x ≡ true
        → (In e (keep_entries dir file kind xs)
            → (y : Text × Bool) × (In y xs
                × ((is_listed file kind y ≡ true) × (e ≡ fs_entry dir y))))
        → In e (fs_entry dir x ∷ keep_entries dir file kind xs)
        → (y : Text × Bool) × (In y (x ∷ xs)
            × ((is_listed file kind y ≡ true) × (e ≡ fs_entry dir y)))
    first h ih (here q) = (x, (here refl, (h, q)))
    first h ih (there n) = later (ih n)

-- An entry is listed for a partial path: its insertion extends the path, and it is a directory where
-- only directories are asked for.
abbrev pub Fits : Text → FsKind → FsEntry → Type 0
Fits partial kind e =
    ((rest : Text) × (e.insert ≡ partial ++ rest)) × ((kind ≡ FsKind.dirs_only) → e.is_dir ≡ true)

fs_entry-Fits :
    (dir file partial : Text) (kind : FsKind) (x : Text × Bool)
    → dir ++ file ≡ partial
    → is_listed file kind x ≡ true
    → Fits partial kind (fs_entry dir x)
unfolding is_listed fs_entry
fs_entry-Fits dir file partial kind (name, is_dir) q h =
    let (rest, e) = starts_with-rest name file (ground arith) in
    let s = if is_dir then b'/' ∷ [] else [] in
    (
      (
        rest ++ s,
        subst (λ n. dir ++ (n ++ s) ≡ partial ++ (rest ++ s)) (sym e)
            (subst (λ p. dir ++ ((file ++ rest) ++ s) ≡ p ++ (rest ++ s)) q
              (ap (λ t. dir ++ t) (append_assoc file rest s)
                ∙ sym (append_assoc dir file (rest ++ s)))),
      ),
      λ k. only kind k h,
    )
  where
    only :
        (kind' : FsKind)
        → kind' ≡ FsKind.dirs_only
        → is_listed file kind' (name, is_dir) ≡ true
        → is_dir ≡ true
    only FsKind.dirs_only k i = ground arith
    only FsKind.files_and_dirs k i = absurd (cc)

-- The insertion of every entry that is listed for a partial path extends the path, and where only
-- directories are asked for, every entry is one.
pub list_entries-Fits :
    (files : FileSystem) (cwd : files.PathBuf) (partial : Text) (kind : FsKind) (e : FsEntry)
    → In e (list_entries files cwd partial kind)
    → Fits partial kind e
unfolding list_entries
list_entries-Fits files cwd partial kind e m =
    let dir = (split_partial partial).0 in
    let file = (split_partial partial).1 in
    elim (Option-cases (files.read_dir (resolve_dir files cwd dir))) [
      | inl h ↦ absurd (elim (rw (list_entries, h) at m) [ ])
      | inr (found, h) ↦
          let (x, (n, (i, q))) = keep_entries_lem dir file kind found e (
            In-sort_by dirs_first (keep_entries dir file kind found) (rw (list_entries, h) at m)) in
          rw q (fs_entry-Fits dir file partial kind x (split_partial-append partial) i)
    ]
