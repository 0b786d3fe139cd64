-- ===== src/Runner.antt =====
-- crates/data/src/runner.rs: running a generator, from the look-up in the cache to the values.
-- The file system, the start of a process and the regex engine are parameters. What a child does is
-- in the record that its start gives: the schedule of its exit and the bytes that it prints.
-- A call returns what it gives back, the runner behind it, and the processes it touched, in order.
pub mod Policy
pub mod Poll
pub mod Courses
pub mod Listed
pub mod Trusted
pub mod Ends
pub mod Warm
pub mod Capped
use autosuggest_core.Base.{
  filter_map, ◌>>=◌, ℕ, ◌+◌, ◌*◌, Bool, true, false, not, List, [], ◌∷◌, ◌++◌, Option, none, some,
  ◌⊎◌, inl, inr, ◌==◌, if◌then◌else◌, leb, find, take, unwrap_or, map,
}
use autosuggest_core.Text.{Text, codes}
use autosuggest_core.Spec.{Generator, GeneratorCache}
use autosuggest_core.Cache.{TtlCache}
use autosuggest_core.Cache
use autosuggest_core.Complete.{GeneratorError}
use autosuggest_core.Output.{Captures, parse_output}
use autosuggest_core.Runner.Policy.{
  System, AllowedProgram, default_allow_list, resolve_allowed_program, path_env_for_allow_list,
  allowed_executable, is_executable_file,
}
use autosuggest_core.Runner.Poll.{Schedule, Waited, wait_child, poll_fuel}
use autosuggest_core.Text.Utf8.{from_utf8_lossy}

-- 100 ms
abbrev pub default_timeout : ℕ
default_timeout = 100000000

abbrev pub default_max_output_bytes : ℕ
default_max_output_bytes = 262144

-- A child process: its id as `format!` prints it, when the time limit begins, the bytes of its
-- output, and whether the output comes to an end (or to the cap), so that its reader does.
pub record Child : Type 0 where
  pub id : Text
  pub started : ℕ
  pub stdout : Option (List ℕ)
  pub schedule : Schedule
  pub is_drained : Bool

-- `Duration::from_millis`, in nanoseconds; without a cache, zero.
unfoldable pub ttl_of : Option GeneratorCache → ℕ
ttl_of none = 0
ttl_of (some c) = c.ttl_ms * 1000000

module _ (system : System) where
  pub record SandboxedRunner : Type 0 where
    pub allow_list : List (AllowedProgram system)
    pub safe_path : Option (system.OsString)
    pub timeout : ℕ
    pub max_output_bytes : ℕ
    pub cache : TtlCache

  -- A command with an environment that holds `PATH` at most.
  pub record ProcessCommand : Type 0 where
    pub executable : system.PathBuf
    pub args : List Text
    pub current_dir : Option Text
    pub path : Option (system.OsString)

  -- What a call does to processes: the start of a child, a command that is run to its end, and the
  -- kill and the wait that are sent to the child.
  pub data Effect : Type 0 where
    spawn : ProcessCommand → Effect
    status : ProcessCommand → Effect
    kill wait : Effect

  pub record Execution : Type 0 where
    pub outcome : Text ⊎ GeneratorError
    pub effects : List Effect

  pub record Ran : Type 0 where
    pub result : List Text ⊎ GeneratorError
    pub runner : SandboxedRunner
    pub effects : List Effect

  unfoldable pub with_allow_list : List Text → SandboxedRunner
  unfolding resolve_allowed_program path_env_for_allow_list
  with_allow_list programs =
      let allow_list = filter_map (resolve_allowed_program system) programs in
      record {
        allow_list = allow_list;
        safe_path = path_env_for_allow_list system allow_list;
        timeout = default_timeout;
        max_output_bytes = default_max_output_bytes;
        cache = Cache.new;
      }

  -- `SandboxedRunner::new`
  unfoldable pub default_runner : SandboxedRunner
  unfolding with_allow_list
  default_runner = with_allow_list default_allow_list

  unfoldable pub with_timeout : SandboxedRunner → ℕ → SandboxedRunner
  with_timeout runner timeout = record runner { timeout = timeout }

  unfoldable pub with_max_output_bytes : SandboxedRunner → ℕ → SandboxedRunner
  with_max_output_bytes runner bytes = record runner { max_output_bytes = bytes }

  abbrev pub kill_programs : List Text
  kill_programs = codes "/bin/kill" ∷ codes "/usr/bin/kill" ∷ []

  unfoldable pub kill_with : Child → Option Text → List Effect
  kill_with child none = Effect.kill ∷ []
  kill_with child (some tool) =
      Effect.status (record {
        executable = system.of_text tool;
        args = codes "-KILL" ∷ (b'-' ∷ child.id) ∷ [];
        current_dir = none;
        path = none;
      })
      ∷ Effect.kill
      ∷ []

  unfoldable pub kill_child_tree : Child → List Effect
  unfolding is_executable_file kill_with
  kill_child_tree child =
      kill_with child (find (λ tool. is_executable_file system (system.of_text tool)) kill_programs)

  -- Behind the loop: what its answer makes of the bytes that are captured.
  unfoldable pub captured : SandboxedRunner → List ℕ → Waited → Text ⊎ GeneratorError
  unfolding from_utf8_lossy
  captured runner bytes Waited.exit = inl (from_utf8_lossy (take (runner.max_output_bytes) bytes))
  captured runner bytes Waited.overrun = inr GeneratorError.timeout
  captured runner bytes (Waited.wait_error e) = inr (GeneratorError.execution (codes "wait: " ++ e))

  -- The reader is joined on every path: without an end of the output that does not return.
  unfoldable pub collect_output :
      SandboxedRunner → Child → List ℕ → Waited → Option (Text ⊎ GeneratorError)
  unfolding captured
  collect_output runner child bytes waited =
      if child.is_drained then some (captured runner bytes waited) else none

  unfoldable pub stop_child : Child → Waited → List Effect
  unfolding kill_child_tree
  stop_child child Waited.exit = []
  stop_child child _ = kill_child_tree child ++ Effect.wait ∷ []

  -- `Instant::now() + self.timeout`; `none` is the panic on overflow.
  unfoldable pub deadline_after : ℕ → ℕ → Option ℕ
  deadline_after started timeout =
      if leb (started + timeout) (system.last_instant) then some (started + timeout) else none

  -- Behind the start of the child. `before` is what was done so far. `none`: the call does not return,
  -- since it panics or since it runs on.
  unfoldable pub await_child : SandboxedRunner → Child → List Effect → Option Execution
  unfolding collect_output stop_child deadline_after
  await_child runner child before = elim child.stdout [
    | none ↦ some (record {
      outcome = inr (GeneratorError.execution (codes "missing stdout pipe"));
      effects = before;
    })
    | some bytes ↦ (do
      deadline ← deadline_after child.started (runner.timeout)
      waited ← wait_child child.schedule deadline (poll_fuel (runner.timeout)) 0
      outcome ← collect_output runner child bytes waited
      some (record { outcome = outcome; effects = before ++ stop_child child waited }))
  ]

  -- The warm path.
  unfoldable pub cached : SandboxedRunner → Generator → Text → ℕ → Option (List Text)
  unfolding Cache.get ttl_of
  cached runner generator cwd now =
      if ttl_of (generator.cache) == 0
      then none
      else Cache.get (runner.cache) (generator.run) cwd now

  abbrev pub refused : GeneratorError → Option Execution
  refused e = some (record { outcome = inr e; effects = [] })

  module _ (start : ProcessCommand → Child ⊎ Text) where
    unfoldable pub spawn_child : SandboxedRunner → Text → ProcessCommand → Option Execution
    unfolding await_child
    spawn_child runner program command = elim (start command) [
      | inr e ↦ some (record {
        outcome = inr (GeneratorError.execution (codes "spawn " ++ (program ++ (codes ": " ++ e))));
        effects = Effect.spawn command ∷ [];
      })
      | inl child ↦ await_child runner child (Effect.spawn command ∷ [])
    ]

    unfoldable pub execute : SandboxedRunner → Generator → Text → Option Execution
    unfolding allowed_executable spawn_child
    execute runner generator cwd = elim (generator.run) [
      | [] ↦ refused GeneratorError.empty_run
      | program ∷ args ↦ elim (allowed_executable system (runner.allow_list) program) [
        | none ↦ refused (GeneratorError.not_allow_listed program)
        | some executable ↦ spawn_child runner program (record {
          executable = executable;
          args = args;
          current_dir = some cwd;
          path = runner.safe_path;
        })
      ]
    ]

    module _ (engine : Captures) where
      -- The cold path, behind the execution.
      unfoldable pub store :
          SandboxedRunner → Generator → Text → ℕ → List Effect → Text ⊎ GeneratorError → Ran
      unfolding parse_output Cache.put ttl_of
      store runner generator cwd now effects (inr e) = record {
        result = inr e;
        runner = runner;
        effects = effects;
      }
      store runner generator cwd now effects (inl stdout) =
          let values = parse_output engine generator stdout in
          record {
            result = inl values;
            runner = record runner {
              cache =
                  Cache.put (runner.cache) (generator.run) cwd values (ttl_of (generator.cache))
                    now;
            };
            effects = effects;
          }

      -- `GeneratorRunner::run` at the instant `now`; `none` where it does not return.
      unfoldable pub run : SandboxedRunner → Generator → Text → ℕ → Option Ran
      unfolding execute store cached
      run runner generator cwd now = elim (cached runner generator cwd now) [
        | some values ↦ some (record { result = inl values; runner = runner; effects = [] })
        | none ↦ do
          execution ← execute runner generator cwd
          some (store runner generator cwd now (execution.effects) (execution.outcome))
      ]
