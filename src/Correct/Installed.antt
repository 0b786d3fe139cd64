-- ===== src/Correct/Installed.antt =====
-- crates/core/src/correct/resolver.rs with native.rs: what is proposed from $PATH can be run.
use autosuggest_core.Base.{
  ◌≡◌, refl, inl, inr, ◌==◌, true, false, List, [], ◌∷◌, some, any, is_empty, unwrap_or, Bool-cases,
  Option-cases, In, here, there, In-append, arith,
}
use autosuggest_core.Text.{Text, join}
use autosuggest_core.Correct.Types.{CorrectContext}
use autosuggest_core.Correct.Resolver.{
  FileMetadata, DirEntry, PathSystem, is_executable, entry_command, entry_commands, is_command_in,
  exists_in, commands_in, from_dirs,
}
use autosuggest_core.Correct.Native.{tokens, space, no_command}
use autosuggest_core.Correct.Near.{FixesCommand, no_command-FixesCommand}

-- The entry is an executable file of that name.
abbrev pub IsProgram : DirEntry → Text → FileMetadata → Type 0
IsProgram entry cmd meta =
    (entry.metadata ≡ some meta) × ((is_executable meta ≡ true) × (entry.name ≡ some cmd))

In-one {ℓ} : {A : Type ℓ} {a b : A} → In a (b ∷ []) → a ≡ b
In-one (here e) = e
In-one (there m) = elim m [ ]

entry_command-IsProgram :
    (entry : DirEntry) (cmd : Text)
    → In cmd (entry_command entry)
    → (meta : FileMetadata) × IsProgram entry cmd meta
unfolding entry_command
entry_command-IsProgram entry cmd m = elim (Option-cases entry.metadata) [
  | inl e ↦ absurd (let g = rw (entry_command, e) at m in elim g [ ])
  | inr (meta, e) ↦ elim (Bool-cases (is_executable meta)) [
    | inr x ↦ absurd (let g = rw (entry_command, e, x) at m in elim g [ ])
    | inl x ↦ elim (Option-cases entry.name) [
      | inl n ↦ absurd (let g = rw (entry_command, e, x, n) at m in elim g [ ])
      | inr (name, n) ↦
          let k : cmd ≡ name = In-one (rw (entry_command, e, x, n) at m) in (meta, (e, (x, rw k n)))
    ]
  ]
]

entry_commands-IsProgram :
    (entries : List DirEntry) (cmd : Text)
    → In cmd (entry_commands entries)
    → (entry : DirEntry) × (In entry entries × ((meta : FileMetadata) × IsProgram entry cmd meta))
unfolding entry_commands
entry_commands-IsProgram [] cmd m = elim m [ ]
entry_commands-IsProgram (entry ∷ entries) cmd m =
    elim (In-append (entry_command entry) (entry_commands entries) m) [
      | inl h ↦ (entry, (here refl, entry_command-IsProgram entry cmd h))
      | inr h ↦
          let (other, (n, program)) = entry_commands-IsProgram entries cmd h in
          (other, (there n, program))
    ]

is_executable-is_file : (meta : FileMetadata) → is_executable meta ≡ true → meta.is_file ≡ true
unfolding is_executable
is_executable-is_file meta h = ground arith

module _ (system : PathSystem) where
  -- The first word of a line with a command that can be run in its place.
  abbrev pub Runs : List (system.PathBuf) → List Text → Text → Type 0
  Runs dirs [] c = ⊥
  Runs dirs (base ∷ rest) c =
      (exists_in system dirs base ≡ false)
      × ((name : Text) × ((exists_in system dirs name ≡ true) × (c ≡ join (name ∷ rest) space)))

  -- A file system that stays as it is: what a directory lists has a name that is no path, and a file
  -- that it lists, which is no symbolic link, is found at its name.
  pub record IsStable : Type 0 where
    pub named :
        (dir : system.PathBuf) (entries : List DirEntry) (entry : DirEntry) (name : Text)
        → system.read_dir dir ≡ some entries
        → In entry entries
        → entry.name ≡ some name
        → (is_empty name ≡ false) × (any (λ c. c == b'/') name ≡ false)
    pub found :
        (dir : system.PathBuf) (entries : List DirEntry) (entry : DirEntry) (name : Text)
        (meta : FileMetadata)
        → system.read_dir dir ≡ some entries
        → In entry entries
        → entry.name ≡ some name
        → entry.metadata ≡ some meta
        → meta.is_file ≡ true
        → system.metadata (system.join dir name) ≡ some meta

  module _ (stable : IsStable) where
    -- A command that a directory adds is one, and has a name that is no path.
    listed-is_command_in :
        (dir : system.PathBuf) (cmd : Text)
        → In cmd (entry_commands (unwrap_or (system.read_dir dir) []))
        → (is_command_in system cmd dir ≡ true)
          × ((is_empty cmd ≡ false) × (any (λ c. c == b'/') cmd ≡ false))
    unfolding is_command_in entry_commands
    listed-is_command_in dir cmd m = elim (Option-cases (system.read_dir dir)) [
      | inl e ↦ absurd (let g = rw e at m in elim g [ ])
      | inr (entries, e) ↦
          let (entry, (n, (meta, (q, (x, name))))) =
            entry_commands-IsProgram entries cmd (rw e at m) in
          let f =
            stable.found dir entries entry cmd meta e n name q (is_executable-is_file meta x) in
          (rw (is_command_in, f) x, stable.named dir entries entry cmd e n name)
    ]

    commands_in-is_command_in :
        (dirs : List (system.PathBuf)) (cmd : Text)
        → In cmd (commands_in system dirs)
        → (any (λ dir. is_command_in system cmd dir) dirs ≡ true)
          × ((is_empty cmd ≡ false) × (any (λ c. c == b'/') cmd ≡ false))
    unfolding commands_in
    commands_in-is_command_in [] cmd m = elim m [ ]
    commands_in-is_command_in (dir ∷ dirs) cmd m =
        elim (In-append (entry_commands (unwrap_or (system.read_dir dir) []))
          (commands_in system dirs) m) [
            | inl h ↦ (let (k, named) = listed-is_command_in dir cmd h in (rw k refl, named))
            | inr h ↦ let (k, named) = commands_in-is_command_in dirs cmd h in (ground arith, named)
          ]

    -- What the resolver lists, it also finds.
    commands_in-exists_in :
        (dirs : List (system.PathBuf)) (cmd : Text)
        → In cmd (commands_in system dirs)
        → exists_in system dirs cmd ≡ true
    unfolding exists_in
    commands_in-exists_in dirs cmd m =
        let (k, (e, s)) = commands_in-is_command_in dirs cmd m in rw (exists_in, e, s, k) refl

    -- On a stable file system `no_command` proposes, for the directories of a path, only the failed
    -- line with its first word, which is no command, replaced by one that `exists` finds.
    pub no_command-Runs :
        (dirs : List (system.PathBuf)) (ctx : CorrectContext) (c : Text)
        → In c (no_command ctx (from_dirs system dirs))
        → Runs dirs (tokens ctx.script) c
    unfolding from_dirs
    no_command-Runs dirs ctx c m =
        step (tokens ctx.script) ((no_command-FixesCommand ctx (from_dirs system dirs) c).0 m)
      where
        step : (toks : List Text) → FixesCommand (from_dirs system dirs) toks c → Runs dirs toks c
        step [] h = h
        step (base ∷ rest) (u, (name, (k, (near, w)))) =
            (u, (name, (commands_in-exists_in dirs name k, w)))
