-- ===== src/Ffi/Agreement.antt =====
-- crates/ffi/src/lib.rs against crates/daemon/src/main.rs: one engine behind two interfaces.
use autosuggest_core.Base.{
  subst, ◌≡◌, refl, sym, ap, ◌∙◌, ◌⊎◌, inl, inr, ℕ, suc, ◌≤◌, List, [], ◌∷◌, map, Option, none,
  some, length, Sum-cases, All, arith,
}
use autosuggest_core.Text.{Text, codes}
use autosuggest_core.Spec.{Subcommand}
use autosuggest_core.Correct.Types.{Rule, CommandResolver, RegexEngine}
use autosuggest_core.Complete.{GeneratorRunner}
use autosuggest_core.Complete.Files.{FileSystem}
use autosuggest_core.History.{HistoryWindow}
use autosuggest_core.Rank.{Float}
use autosuggest_core.Daemon.{Engine, Json, handle_line, max_request_bytes}
use autosuggest_core.Daemon.Load.{Disk, LoadError}
use autosuggest_core.Daemon.Main.{
  Host, load, main, configured, parse_args, resolve_dir, normalize_dir,
}
use autosuggest_core.Daemon.Stdin.{Served, Ending}
use autosuggest_core.Daemon.Fuel.{serve_fuel}
use autosuggest_core.Daemon.Served.{IsLine, wire, serve-wire}
use autosuggest_core.Ffi.{
  Outcome, returned, Handler, fallback_error, into_c_string, caught, handle_with,
}
use autosuggest_core.Ffi.Process.Loaded.{answers}
use autosuggest_core.Ffi.Load.{load_engine, handler, dir_from_env}
use autosuggest_core.Ffi.Lines.{IsRequest, ask, requests-lines, length-wire, answers-lines}

module _ (disk : Disk) (host : Host disk.PathBuf) (parse_spec : disk.Bytes → Subcommand ⊎ Text)
    (parse_rule : disk.Bytes → Rule ⊎ Text)
    (open_store : disk.PathBuf → Option (Text → ℕ → Option Text → Option HistoryWindow))
    (resolver : CommandResolver) (runner : GeneratorRunner) (files : FileSystem) (float : Float)
    (regex : RegexEngine) (json : Json float) where
  -- What both load, if the process has no arguments and no history database is named.
  abbrev both_load : Engine ⊎ LoadError disk
  both_load =
      load disk host parse_spec parse_rule open_store resolver runner
        (dir_from_env disk host (codes "AUTOSUGGEST_SPECS_DIR") (codes "./specs"))
        (dir_from_env disk host (codes "AUTOSUGGEST_RULES_DIR") (codes "./rules"))

  configured-load :
      host.var (codes "AUTOSUGGEST_HISTORY_DB") ≡ none
      → configured disk host parse_spec parse_rule open_store resolver runner [] ≡ both_load
  unfolding configured parse_args resolve_dir normalize_dir load dir_from_env
  configured-load h = rw h refl

  -- The daemon with no arguments.
  abbrev pub daemon : List (List ℕ × Text) → Option Served
  daemon lines =
      main disk host parse_spec parse_rule open_store resolver runner files float regex json []
        (wire lines)

  -- The answers of the C interface of a new process to the same lines.
  abbrev pub interface : List (List ℕ × Text) → List Text
  interface lines =
      (answers max_request_bytes
        (map
          (ask (
            load_engine disk host parse_spec parse_rule open_store resolver runner files float regex
              json))
          lines)
        none).0

  main-engine :
      (lines : List (List ℕ × Text)) (e : Engine)
      → configured disk host parse_spec parse_rule open_store resolver runner [] ≡ inl e
      → All (IsLine max_request_bytes) lines
      → All IsRequest lines
      → daemon lines
        ≡ some (record {
          responses = map (handle_line files float regex json e) (map (λ l. l.1) lines);
          ending = Ending.success;
        })
  unfolding main
  main-engine lines e c h r =
      let serves =
        serve-wire max_request_bytes (λ line. handle_line files float regex json e line) lines h in
      let enough : suc (length lines) ≤ suc (length (wire lines)) =
        omega (arith, length-wire lines) in
      rw (main, c)
        (serve_fuel max_request_bytes (λ line. handle_line files float regex json e line)
          (suc (length lines)) (suc (length (wire lines))) (wire lines) _ enough
          (rw (requests-lines lines r) at serves))

  main-failed :
      (lines : List (List ℕ × Text)) (e : LoadError disk)
      → configured disk host parse_spec parse_rule open_store resolver runner [] ≡ inr e
      → daemon lines ≡ some (record { responses = []; ending = Ending.io_error })
  unfolding main
  main-failed lines e c = rw (main, c) refl

  caught-handler :
      (e : Engine) (lines : List (List ℕ × Text))
      → map
          (λ l. caught (
            handle_with l.1
              (returned (some (λ line. returned (handle_line files float regex json e line))))))
          lines
        ≡ map into_c_string (map (handle_line files float regex json e) (map (λ l. l.1) lines))
  unfolding caught handle_with
  caught-handler e [] = refl
  caught-handler e (l ∷ lines) =
      ap (λ z. into_c_string (handle_line files float regex json e l.1) ∷ z)
        (caught-handler e lines)

  caught-failed :
      (lines : List (List ℕ × Text))
      → map (λ l. caught (handle_with l.1 (returned none))) lines ≡ map (λ _. fallback_error) lines
  unfolding caught handle_with into_c_string
  caught-failed [] = refl
  caught-failed (l ∷ lines) = ap (λ z. fallback_error ∷ z) (caught-failed lines)

  abbrev loading : Outcome (Option Handler)
  loading =
      load_engine disk host parse_spec parse_rule open_store resolver runner files float regex json

  abbrev handler_of : Engine → Handler
  handler_of =
      handler disk host parse_spec parse_rule open_store resolver runner files float regex json

  load_engine-loads : (e : Engine) → both_load ≡ inl e → loading ≡ returned (some (handler_of e))
  unfolding load_engine
  load_engine-loads e k = rw (load_engine, k) refl

  load_engine-fails : (e : LoadError disk) → both_load ≡ inr e → loading ≡ returned none
  unfolding load_engine
  load_engine-fails e k = rw (load_engine, k) refl

  interface-answers :
      (lines : List (List ℕ × Text)) (loaded : Option Handler)
      → loading ≡ returned loaded
      → All (IsLine max_request_bytes) lines
      → All IsRequest lines
      → interface lines ≡ map (λ l. caught (handle_with l.1 (returned loaded))) lines
  interface-answers lines loaded k h r =
      subst
        (λ x.
          (answers max_request_bytes (map (ask x) lines) none).0
          ≡ map (λ l. caught (handle_with l.1 (returned loaded))) lines)
        (sym k) (answers-lines max_request_bytes loaded lines none (inl refl) h r)

  -- One input to both: lines within the limit, each a text and a C string, not blank and with no
  -- carriage return at its end, for a daemon without arguments where no history database is named.
  -- The daemon returns. If the data can be loaded it ends with success, and the C interface answers
  -- the lines as the daemon does, each response as a C string; if not, the daemon fails with no
  -- response, and the C interface answers the fallback error to every line.
  pub main-Agrees :
      (lines : List (List ℕ × Text))
      → host.var (codes "AUTOSUGGEST_HISTORY_DB") ≡ none
      → All (IsLine max_request_bytes) lines
      → All IsRequest lines
      → (served : Served) × (daemon lines ≡ some served)
        × (((served.ending ≡ Ending.success)
              × (interface lines ≡ map into_c_string served.responses))
            ⊎ ((served ≡ record { responses = []; ending = Ending.io_error })
                × (interface lines ≡ map (λ _. fallback_error) lines)))
  main-Agrees lines v h r = elim (Sum-cases both_load) [
    | inl (e, k) ↦ (
      record {
        responses = map (handle_line files float regex json e) (map (λ l. l.1) lines);
        ending = Ending.success;
      },
      main-engine lines e (configured-load v ∙ k) h r,
      inl (
        refl,
        interface-answers lines (some (handler_of e)) (load_engine-loads e k) h r
            ∙ caught-handler e lines,
      ),
    )
    | inr (e, k) ↦ (
      record { responses = []; ending = Ending.io_error },
      main-failed lines e (configured-load v ∙ k),
      inr (refl, interface-answers lines none (load_engine-fails e k) h r ∙ caught-failed lines),
    )
  ]
