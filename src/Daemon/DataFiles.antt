-- ===== src/Daemon/DataFiles.antt =====
-- crates/daemon/src/load.rs: the directories that may be read, and the data files in them.
use autosuggest_core.Base.{
  Sum-cases, ◌≡◌, ◌≢◌, ◌↔◌, refl, sym, ap, ◌∙◌, subst, Bool, true, not, ◌&&◌, List, [], ◌∷◌, none,
  some, ◌⊎◌, inl, inr, Bool-cases, Option-cases, In, here, there, arith,
}
use autosuggest_core.Text.{Text, codes}
use autosuggest_core.Text.Laws.{eq_of_text_eq}
use autosuggest_core.Daemon.Load.{
  IoError, Entry, Disk, ends_with, allow_relative_data_dirs, validate_data_dir, push_path,
  matching_paths,
}

In-cases {ℓ} : {A : Type ℓ} {a : A} (x : A) (xs : List A) → In a (x ∷ xs) → (x ≡ a) ⊎ In a xs
In-cases x xs (here e) = inl (sym e)
In-cases x xs (there m) = inr m

module _ (disk : Disk) where
  -- A directory that may be read: an absolute path, or any by the environment, and no symbolic link.
  abbrev pub IsAcceptable : disk.PathBuf → Type 0
  IsAcceptable dir =
      ((disk.is_absolute dir ≡ true) ⊎ (disk.allow_relative ≡ some (codes "1")))
      × (disk.is_symlink dir ≢ some true)

  -- A path in the directory of a file whose name has the suffix.
  abbrev pub IsDataFile : List (Entry disk.PathBuf ⊎ IoError) → Text → disk.PathBuf → Type 0
  IsDataFile entries suffix path =
      (entry : Entry disk.PathBuf) × (In (inl entry) entries
        × ((entry.path ≡ path)
            × ((entry.is_file ≡ inl true) × (ends_with entry.name suffix ≡ true))))

  pub allow_relative_lem :
      allow_relative_data_dirs disk ≡ true → disk.allow_relative ≡ some (codes "1")
  unfolding allow_relative_data_dirs
  allow_relative_lem h = elim (Option-cases (disk.allow_relative)) [
    | inl n ↦ absurd (let h' = rw (allow_relative_data_dirs, n) at h in cc)
    | inr (v, n) ↦
        n ∙ ap (λ t. some t) (eq_of_text_eq v (codes "1") (rw (allow_relative_data_dirs, n) at h))
  ]

  pub validate_data_dir-IsAcceptable :
      (dir : disk.PathBuf) → validate_data_dir disk dir ≡ none → IsAcceptable dir
  unfolding validate_data_dir
  validate_data_dir-IsAcceptable dir h =
      elim (Bool-cases (not (disk.is_absolute dir) && not (allow_relative_data_dirs disk))) [
        | inl e ↦ absurd (let h' = rw (validate_data_dir, e) at h in cc)
        | inr e ↦ (
          (elim (Bool-cases (disk.is_absolute dir)) [
            | inl a ↦ inl a
            | inr a ↦ inr (allow_relative_lem (ground (arith, e, a)))
          ]),
          λ k. absurd (let h' = rw (validate_data_dir, e, k) at h in cc),
        )
      ]

  module _ (suffix : Text) where
    push_path-In :
        (entry : Entry disk.PathBuf) (is_file : Bool) (paths : List (disk.PathBuf))
        (path : disk.PathBuf)
        → In path (push_path disk suffix entry is_file paths) ↔ (
            ((entry.path ≡ path) × ((is_file ≡ true) × (ends_with entry.name suffix ≡ true)))
            ⊎ In path paths)
    unfolding push_path
    push_path-In entry is_file paths path =
        elim (Bool-cases (is_file && ends_with entry.name suffix)) [
          | inl e ↦ (
            λ m. (elim (In-cases (entry.path) paths (rw (push_path, e) at m)) [
              | inl q ↦ inl (q, (ground (arith, e), ground (arith, e)))
              | inr k ↦ inr k
            ]),
            λ o. rw (push_path, e) (elim o [ inl q ↦ here (sym q.0) | inr m ↦ there m ]),
          )
          | inr e ↦ (
            λ m. inr (rw (push_path, e) at m),
            λ o.
                rw (push_path, e)
                  (elim o [ inl q ↦ absurd (ground (arith, e, q.1.0, q.1.1)) | inr m ↦ m ]),
          )
        ]

    own_or_later :
        (entry : Entry disk.PathBuf) (is_file : Bool)
        → entry.is_file ≡ inl is_file
        → (entries : List (Entry disk.PathBuf ⊎ IoError)) (path : disk.PathBuf) {B : Type 0}
        → IsDataFile (inl entry ∷ entries) suffix path
        → (IsDataFile entries suffix path → B)
        → ((entry.path ≡ path) × ((is_file ≡ true) × (ends_with entry.name suffix ≡ true))) ⊎ B
    own_or_later entry is_file n entries path (x, (here q, (a, (b, c)))) later =
        let e : x ≡ entry = cc in
        let b' = subst (λ z. z.is_file ≡ inl true) e b in
        inl (subst (λ z. z.path ≡ path) e a, (cc, subst (λ z. ends_with z.name suffix ≡ true) e c))
    own_or_later entry is_file n entries path (x, (there m, d)) later = inr (later (x, (m, d)))

    -- The data files of the entries behind an entry, and the entry itself if it is one.
    entry_lem :
        (entry : Entry disk.PathBuf) (is_file : Bool)
        → entry.is_file ≡ inl is_file
        → (entries : List (Entry disk.PathBuf ⊎ IoError)) (paths : List (disk.PathBuf))
          (path : disk.PathBuf)
        → (In path paths ↔ IsDataFile entries suffix path)
        → In path (push_path disk suffix entry is_file paths)
          ↔ IsDataFile (inl entry ∷ entries) suffix path
    entry_lem entry is_file n entries paths path rest =
        let (to, from) = push_path-In entry is_file paths path in
        (
          λ m. (elim (to m) [
            | inl (q, (f, e)) ↦ (entry, (here refl, (q, (rw (sym f) n, e))))
            | inr k ↦ (let (x, (i, d)) = rest.0 k in (x, (there i, d)))
          ]),
          λ d. from (own_or_later entry is_file n entries path d (λ z. rest.1 z)),
        )

    pub matching_paths-IsDataFile :
        (entries : List (Entry disk.PathBuf ⊎ IoError)) (paths : List (disk.PathBuf))
        → matching_paths disk suffix entries ≡ inl paths
        → (path : disk.PathBuf) → In path paths ↔ IsDataFile entries suffix path
    unfolding matching_paths
    matching_paths-IsDataFile [] paths h path =
        let q : [] ≡ paths = cc in
        subst (λ ps. In path ps ↔ IsDataFile [] suffix path) q
          (λ m. (elim m [ ]), λ d. (elim d.1.0 [ ]))
    matching_paths-IsDataFile (inr e ∷ entries) paths h path = absurd (cc)
    matching_paths-IsDataFile (inl entry ∷ entries) paths h path = elim (Sum-cases entry.is_file) [
      | inr (e, n) ↦ absurd (let h' = rw (matching_paths, n) at h in cc)
      | inl (f, n) ↦ elim (Sum-cases (matching_paths disk suffix entries)) [
        | inr (e, k) ↦ absurd (let h' = rw (matching_paths, n, k) at h in cc)
        | inl (ps, k) ↦
            let q : push_path disk suffix entry f ps ≡ paths =
              (let h' = rw (matching_paths, n, k) at h in cc) in
            subst (λ z. In path z ↔ IsDataFile (inl entry ∷ entries) suffix path) q
              (entry_lem entry f n entries ps path (matching_paths-IsDataFile entries ps k path))
      ]
    ]
