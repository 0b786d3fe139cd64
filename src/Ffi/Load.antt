-- ===== src/Ffi/Load.antt =====
-- crates/ffi/src/lib.rs: the engine that the C interface loads.
use autosuggest_core.Base.{◌⊎◌, inl, inr, Option, none, some, ℕ, if◌then◌else◌, unwrap_or}
use autosuggest_core.Text.{Text, codes}
use autosuggest_core.Spec.{Subcommand}
use autosuggest_core.Correct.Types.{Rule, CommandResolver, RegexEngine}
use autosuggest_core.Complete.{GeneratorRunner}
use autosuggest_core.Complete.Files.{FileSystem}
use autosuggest_core.History.{HistoryWindow}
use autosuggest_core.Rank.{Float}
use autosuggest_core.Daemon.{Engine, Json, handle_line}
use autosuggest_core.Daemon.Load.{Disk}
use autosuggest_core.Daemon.Main.{Host, load}
use autosuggest_core.Ffi.{Outcome, returned, Handler}

module _ (disk : Disk) (host : Host disk.PathBuf) where
  unfoldable pub dir_from_env : Text → Text → disk.PathBuf
  dir_from_env env_key default =
      let path = unwrap_or (host.var env_key) (host.of_text default) in
      if disk.is_absolute path
      then path
      else (elim host.current_dir [ none ↦ path | some cwd ↦ host.join cwd path ])

  module _ (parse_spec : disk.Bytes → Subcommand ⊎ Text) (parse_rule : disk.Bytes → Rule ⊎ Text)
      (open_store : disk.PathBuf → Option (Text → ℕ → Option Text → Option HistoryWindow))
      (resolver : CommandResolver) (runner : GeneratorRunner) (files : FileSystem) (float : Float)
      (regex : RegexEngine) (json : Json float) where
    abbrev pub handler : Engine → Handler
    handler engine = λ line. returned (handle_line files float regex json engine line)

    -- The closure of `engine`, where nothing panics.
    unfoldable pub load_engine : Outcome (Option Handler)
    unfolding dir_from_env load handle_line
    load_engine =
        elim (load disk host parse_spec parse_rule open_store resolver runner
          (dir_from_env (codes "AUTOSUGGEST_SPECS_DIR") (codes "./specs"))
          (dir_from_env (codes "AUTOSUGGEST_RULES_DIR") (codes "./rules"))) [
            | inl engine ↦ returned (some (handler engine))
            | inr _ ↦ returned none
          ]
