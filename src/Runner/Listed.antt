-- ===== src/Runner/Listed.antt =====
-- crates/data/src/runner.rs: the executables that an allow-list stands for.
use autosuggest_core.Base.{
  ◌≡◌, refl, sym, ◌∙◌, subst, Bool, true, false, List, some, ◌⊎◌, inl, inr, Bool-cases,
  Option-cases, is_empty, In, In-filter_map, In-find_map, find-In, filter_map, find,
}
use autosuggest_core.Text.{Text, text_eq}
use autosuggest_core.Text.Laws.{eq_of_text_eq}
use autosuggest_core.Runner.Policy.{
  executable_of, System, AllowedProgram, trusted_program_dirs, has_path_separator,
  is_executable_file, canonicalize_if_possible, executable_at, resolve_on_path,
  resolve_allowed_program, allowed_executable,
}

module _ (system : System) where
  -- Where a program of the allow-list may lie: at the path that it is, or, without a separator in it,
  -- in a trusted directory.
  abbrev pub IsCandidate : Text → system.PathBuf → Type 0
  IsCandidate program path =
      ((has_path_separator program ≡ true) × (path ≡ system.of_text program))
      ⊎ ((has_path_separator program ≡ false)
          × ((dir : Text) × (In dir trusted_program_dirs
                × (path ≡ system.join (system.of_text dir) program))))

  -- An executable that a program of the allow-list stands for.
  abbrev pub IsTrusted : Text → system.PathBuf → Type 0
  IsTrusted program executable =
      (path : system.PathBuf) × (IsCandidate program path
        × ((is_executable_file system path ≡ true)
            × (executable ≡ canonicalize_if_possible system path)))

  executable_at-IsExecutable :
      (path executable : system.PathBuf)
      → executable_at system path ≡ some executable
      → (is_executable_file system path ≡ true)
        × (executable ≡ canonicalize_if_possible system path)
  unfolding executable_at
  executable_at-IsExecutable path executable h =
      elim (Bool-cases (is_executable_file system path)) [
        | inl e ↦ (e, (let h' = rw e at h in cc))
        | inr e ↦ absurd (let h' = rw e at h in cc)
      ]

  executable_of-IsTrusted :
      (program : Text) (executable : system.PathBuf)
      → executable_of system program ≡ some executable
      → IsTrusted program executable
  unfolding executable_of resolve_on_path
  executable_of-IsTrusted program executable h = elim (Bool-cases (has_path_separator program)) [
    | inl e ↦ (
      system.of_text program,
      (inl (e, refl), executable_at-IsExecutable _ executable (rw e at h)),
    )
    | inr e ↦
        let (dir, (m, q)) =
          In-find_map (λ dir. executable_at system (system.join (system.of_text dir) program))
            trusted_program_dirs (rw e at h) in
        (
          system.join (system.of_text dir) program,
          (inr (e, (dir, (m, refl))), executable_at-IsExecutable _ executable q),
        )
  ]

  -- What `allow_list` holds for the programs it was made of.
  abbrev pub IsListed : List Text → Text → system.PathBuf → Type 0
  IsListed programs program executable = In program programs × IsTrusted program executable

  resolve-IsListed :
      (program : Text) (entry : AllowedProgram system)
      → resolve_allowed_program system program ≡ some entry
      → (entry.requested ≡ program) × IsTrusted program (entry.executable)
  unfolding resolve_allowed_program
  resolve-IsListed program entry h = elim (Bool-cases (is_empty program)) [
    | inl e ↦ absurd (let h' = rw e at h in cc)
    | inr e ↦ elim (Option-cases (executable_of system program)) [
      | inl n ↦ absurd (let h' = rw (e, n) at h in cc)
      | inr (x, q) ↦
          let k : some (record { requested = program; executable = x }) ≡ some entry =
            rw (e, q) at h in
          let same : record { requested = program; executable = x } ≡ entry = cc in
          subst (λ a. ((a.requested) ≡ program) × IsTrusted program (a.executable)) same
            (refl, executable_of-IsTrusted program x q)
    ]
  ]

  pub allowed_executable-IsListed :
      (programs : List Text) (program : Text) (executable : system.PathBuf)
      → allowed_executable system (filter_map (resolve_allowed_program system) programs) program
        ≡ some executable
      → IsListed programs program executable
  unfolding allowed_executable
  allowed_executable-IsListed programs program executable h =
      let list = filter_map (resolve_allowed_program system) programs in
      let test : AllowedProgram system → Bool = λ entry. text_eq (entry.requested) program in
      elim (Option-cases (find test list)) [
        | inl n ↦ absurd (let h' = rw n at h in cc)
        | inr (entry, q) ↦
            let (m, t) = find-In test list q in
            let (named, (k, r)) = In-filter_map (resolve_allowed_program system) programs m in
            let (a, b) = resolve-IsListed named entry r in
            let e : named ≡ program = sym a ∙ eq_of_text_eq (entry.requested) program t in
            let x : entry.executable ≡ executable = (let h' = rw q at h in cc) in
            (
              subst (λ n. In n programs) e k,
              subst (λ n. IsTrusted n executable) e (subst (λ z. IsTrusted named z) x b),
            )
      ]
