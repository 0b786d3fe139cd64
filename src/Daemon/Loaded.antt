-- ===== src/Daemon/Loaded.antt =====
-- crates/daemon/src/load.rs: what is loaded from the data files of a directory.
use autosuggest_core.Base.{
  Sum-cases, ◌≡◌, ◌↔◌, refl, sym, ap₂, subst, List, [], ◌∷◌, ◌⊎◌, inl, inr, map, Option-cases, In,
}
use autosuggest_core.Base.Sort.{
  sort_by, In-sort_by, sort_by-In, IsPreorder, IsSortedBy, sort_by-IsSortedBy,
}
use autosuggest_core.Text.{Text}
use autosuggest_core.Daemon.Load.{
  IoError, Entry, Disk, validate_data_dir, matching_paths, collect_paths, load_file, load_files,
  load_paths, load_dir,
}
use autosuggest_core.Daemon.DataFiles.{
  IsAcceptable, IsDataFile, validate_data_dir-IsAcceptable, matching_paths-IsDataFile,
}

module _ (disk : Disk) {T : Type 0} (from_slice : disk.Bytes → T ⊎ Text) where
  load_files-map :
      (paths : List (disk.PathBuf)) (values : List T)
      → load_files disk from_slice paths ≡ inl values
      → map (load_file disk from_slice) paths ≡ map (λ v. inl v) values
  unfolding load_files
  load_files-map [] values h = let q : [] ≡ values = cc in rw (sym q) refl
  load_files-map (path ∷ paths) values h = elim (Sum-cases (load_file disk from_slice path)) [
    | inr (e, n) ↦ absurd (let h' = rw (load_files, n) at h in cc)
    | inl (v, n) ↦ elim (Sum-cases (load_files disk from_slice paths)) [
      | inr (e, k) ↦ absurd (let h' = rw (load_files, n, k) at h in cc)
      | inl (vs, k) ↦
          let q : v ∷ vs ≡ values = (let h' = rw (load_files, n, k) at h in cc) in
          subst (λ z. map (load_file disk from_slice) (path ∷ paths) ≡ map (λ v. inl v) z) q
            (ap₂ (λ x xs. x ∷ xs) n (load_files-map paths vs k))
    ]
  ]

  -- What the values of a directory come from: nothing, where something in it is not found, and
  -- else each of its data files, in the order of their paths.
  abbrev pub Loads : disk.PathBuf → Text → List T → Type 0
  Loads dir suffix values =
      ((values ≡ []) × (collect_paths disk dir suffix ≡ inr IoError.not_found))
      ⊎ ((entries : List (Entry disk.PathBuf ⊎ IoError)) × ((paths : List (disk.PathBuf))
            × ((disk.read_dir dir ≡ inl entries)
                × (((path : disk.PathBuf) → In path paths ↔ IsDataFile disk entries suffix path)
                    × (IsSortedBy (disk.path_cmp) paths
                        × (map (load_file disk from_slice) paths ≡ map (λ v. inl v) values))))))

  collect_paths-Loads :
      IsPreorder (disk.path_cmp)
      → (dir : disk.PathBuf) (suffix : Text) (values : List T) (paths : List (disk.PathBuf))
      → collect_paths disk dir suffix ≡ inl paths
      → load_files disk from_slice paths ≡ inl values
      → Loads dir suffix values
  unfolding collect_paths
  collect_paths-Loads p dir suffix values paths c h = elim (Sum-cases (disk.read_dir dir)) [
    | inr (e, n) ↦ absurd (let h' = rw (collect_paths, n) at c in cc)
    | inl (entries, n) ↦ elim (Sum-cases (matching_paths disk suffix entries)) [
      | inr (e, k) ↦ absurd (let h' = rw (collect_paths, n, k) at c in cc)
      | inl (ps, k) ↦
          let q : sort_by (disk.path_cmp) ps ≡ paths =
            (let h' = rw (collect_paths, n, k) at c in cc) in
          let files = matching_paths-IsDataFile disk suffix entries ps k in
          inr (
            entries,
            (
              paths,
              (
                n,
                (
                  (λ path.
                      subst (λ z. In path z ↔ IsDataFile disk entries suffix path) q
                        (
                          λ m. (files path).0 (In-sort_by (disk.path_cmp) ps m),
                          λ d. sort_by-In (disk.path_cmp) ps ((files path).1 d),
                        )),
                  (
                    subst (λ z. IsSortedBy (disk.path_cmp) z) q (sort_by-IsSortedBy p ps),
                    load_files-map paths values h,
                  ),
                ),
              ),
            ),
          )
    ]
  ]

  load_paths-Loads :
      IsPreorder (disk.path_cmp)
      → (dir : disk.PathBuf) (suffix : Text) (values : List T)
        (paths : List (disk.PathBuf) ⊎ IoError)
      → collect_paths disk dir suffix ≡ paths
      → load_paths disk from_slice dir paths ≡ inl values
      → Loads dir suffix values
  unfolding load_paths
  load_paths-Loads p dir suffix values (inl paths) c h =
      collect_paths-Loads p dir suffix values paths c h
  load_paths-Loads p dir suffix values (inr IoError.not_found) c h = inl (cc, c)
  load_paths-Loads p dir suffix values (inr (IoError.other e)) c h = absurd (cc)

  -- Where the order of paths is a total preorder, a directory loads only if it is acceptable, and
  -- then its values are those of all its data files, each read and parsed, in the order of the
  -- paths, or none where something was not found.
  pub load_dir-Loads :
      IsPreorder (disk.path_cmp)
      → (dir : disk.PathBuf) (suffix : Text) (values : List T)
      → load_dir disk from_slice dir suffix ≡ inl values
      → IsAcceptable disk dir × Loads dir suffix values
  unfolding load_dir load_paths collect_paths
  load_dir-Loads p dir suffix values h = elim (Option-cases (validate_data_dir disk dir)) [
    | inr (e, n) ↦ absurd (let h' = rw (load_dir, n) at h in cc)
    | inl n ↦ (
      validate_data_dir-IsAcceptable disk dir n,
      load_paths-Loads p dir suffix values _ refl (rw (load_dir, n) at h),
    )
  ]
