-- ===== src/Daemon/Main.antt =====
-- crates/daemon/src/main.rs and `load_with_history` of lib.rs: from the arguments of the process to its
-- exit. The environment is a parameter; what is written to the standard error is not modelled.
use autosuggest_core.Base.{
  get_elem?, ℕ, suc, true, false, List, [], ◌∷◌, ◌++◌, Option, none, some, ◌⊎◌, inl, inr,
  if◌then◌else◌, length, unwrap_or,
}
use autosuggest_core.Text.{Text, codes, text_eq}
use autosuggest_core.Spec.{Subcommand}
use autosuggest_core.Correct.Types.{Rule, CommandResolver, RegexEngine}
use autosuggest_core.Complete.{GeneratorRunner}
use autosuggest_core.Complete.Files.{FileSystem}
use autosuggest_core.History.{HistoryWindow}
use autosuggest_core.Rank.{Float}
use autosuggest_core.Daemon.{
  Engine, Json, with_runner, with_history_store, handle_line, max_request_bytes,
}
use autosuggest_core.Daemon.Load.{Disk, LoadError, load_dir, spec_suffix, rule_suffix}
use autosuggest_core.Daemon.Stdin.{Served, Ending, serve}

abbrev pub history_flag : Text
history_flag = codes "--history-db"

-- The loop over the arguments: the database so far, and the positional arguments.
unfoldable pub parse_args : Option Text → List Text → List Text → Option Text × List Text
unfolding text_eq
parse_args history_db pos_args [] = (history_db, pos_args)
parse_args history_db pos_args (arg ∷ []) =
    if text_eq arg history_flag then (none, pos_args) else (history_db, pos_args ++ arg ∷ [])
parse_args history_db pos_args (arg ∷ next ∷ rest) = elim (text_eq arg history_flag) [
  | true ↦ parse_args (some next) pos_args rest
  | false ↦ parse_args history_db (pos_args ++ arg ∷ []) (next ∷ rest)
]

-- `std::env`, with paths as in loading.
pub record Host (PathBuf : Type 0) : Type 0 where
  pub of_text : Text → PathBuf
  pub var : Text → Option PathBuf
  pub current_dir : Option PathBuf
  pub join : PathBuf → PathBuf → PathBuf

module _ (disk : Disk) (host : Host disk.PathBuf) where
  unfoldable pub normalize_dir : disk.PathBuf → disk.PathBuf
  normalize_dir path =
      if disk.is_absolute path
      then path
      else (elim host.current_dir [ none ↦ path | some cwd ↦ host.join cwd path ])

  unfoldable pub resolve_dir : Option Text → Text → Text → disk.PathBuf
  unfolding normalize_dir
  resolve_dir arg env_key default = elim arg [
    | some text ↦ normalize_dir (host.of_text text)
    | none ↦ normalize_dir (unwrap_or (host.var env_key) (host.of_text default))
  ]

  module _ (parse_spec : disk.Bytes → Subcommand ⊎ Text) (parse_rule : disk.Bytes → Rule ⊎ Text)
      (open_store : disk.PathBuf → Option (Text → ℕ → Option Text → Option HistoryWindow))
      (resolver : CommandResolver) (runner : GeneratorRunner) where
    -- A store that cannot be opened is left out.
    unfoldable pub attach_history : Engine → Option (disk.PathBuf) → Engine
    unfolding with_history_store
    attach_history engine none = engine
    attach_history engine (some path) = elim (open_store path) [
      | none ↦ engine
      | some recent ↦ with_history_store engine recent
    ]

    unfoldable pub load_with_history :
        disk.PathBuf → disk.PathBuf → Option (disk.PathBuf) → Engine ⊎ LoadError disk
    unfolding load_dir with_runner attach_history
    load_with_history specs_dir rules_dir history_db =
        elim (load_dir disk parse_spec specs_dir spec_suffix) [
          | inr e ↦ inr e
          | inl specs ↦ elim (load_dir disk parse_rule rules_dir rule_suffix) [
            | inr e ↦ inr e
            | inl rules ↦ inl (attach_history (with_runner specs rules resolver runner) history_db)
          ]
        ]

    -- `Engine::load`
    unfoldable pub load : disk.PathBuf → disk.PathBuf → Engine ⊎ LoadError disk
    unfolding load_with_history
    load specs_dir rules_dir = load_with_history specs_dir rules_dir none

    unfoldable pub configured : List Text → Engine ⊎ LoadError disk
    unfolding parse_args resolve_dir load_with_history
    configured args =
        let (history_db, pos_args) = parse_args none [] args in
        load_with_history
          (resolve_dir (get_elem? pos_args 0) (codes "AUTOSUGGEST_SPECS_DIR") (codes "./specs"))
          (resolve_dir (get_elem? pos_args 1) (codes "AUTOSUGGEST_RULES_DIR") (codes "./rules"))
          (elim history_db [
            | some path ↦ some (host.of_text path)
            | none ↦ host.var (codes "AUTOSUGGEST_HISTORY_DB")
          ])

    -- What the process answers to an input, and how it ends: nothing, with a failure, where its data
    -- cannot be loaded.
    unfoldable pub main :
        (files : FileSystem) (float : Float) (regex : RegexEngine) (json : Json float)
        → List Text
        → List ℕ
        → Option Served
    unfolding configured serve handle_line
    main files float regex json args input = elim (configured args) [
      | inr e ↦ some (record { responses = []; ending = Ending.io_error })
      | inl engine ↦
          serve max_request_bytes (λ line. handle_line files float regex json engine line)
            (suc (length input)) input
    ]
