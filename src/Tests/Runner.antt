-- ===== src/Tests/Runner.antt =====
-- crates/data/src/runner.rs with a disk that holds one program and a child that prints two lines.
use autosuggest_core.Base.{
  ◌≡◌, refl, ◌++◌, ◌*◌, ◌+◌, ◌≤◌, subst, zero, suc, true, List, [], ◌∷◌, none, some, inl, inr, ◌⊎◌,
  if◌then◌else◌, arith, here, length,
}
use autosuggest_core.Text.{Text, codes, text_eq, text_cmp, join}
use autosuggest_core.Spec.{Generator}
use autosuggest_core.Complete.{GeneratorError}
use autosuggest_core.Cache.{put}
use autosuggest_core.Runner.{
  Child, SandboxedRunner, ProcessCommand, Effect, Execution, Ran, with_allow_list, execute, run,
  cached, ttl_of,
}
use autosuggest_core.Runner.Policy.{System}
use autosuggest_core.Runner.Poll.{Schedule, TryWait, IsPaced, poll_interval, poll_fuel, wait_child}
use autosuggest_core.Runner.Listed.{IsListed}
use autosuggest_core.Runner.Trusted.{Reachable, run-IsListed}
use autosuggest_core.Runner.Ends.{
  IsTimed, IsTimely, HasExited, IsReaped, run-returns, execute-IsReaped,
}
use autosuggest_core.Runner.Warm.{run-warm}
use autosuggest_core.Runner.Capped.{length-run}
use autosuggest_core.Tests.Output.{engine, branches}

abbrev git : Text
git = codes "/usr/bin/git"

abbrev disk : System
disk = record {
  PathBuf = Text;
  OsString = Text;
  of_text = λ t. t;
  join = λ dir program. dir ++ (b'/' ∷ program);
  parent = λ path. some (codes "/usr/bin");
  path_cmp = text_cmp;
  metadata =
      λ path. if text_eq path git then some (record { is_file = true; mode = 493 }) else none;
  canonicalize = λ path. none;
  join_paths = λ paths. some (join paths (codes ":"));
  last_instant = 9223372036854775807999999999;
}

-- The child exits before the second round.
abbrev schedule : Schedule
schedule = record {
  try_wait = λ round. elim round [ zero ↦ TryWait.running | suc n ↦ TryWait.exited ];
  now = λ round. 10 + round * poll_interval;
}

abbrev child : Child
child = record {
  id = codes "77";
  started = 10;
  stdout = some (codes "main\ndev\n");
  schedule = schedule;
  is_drained = true;
}

abbrev start : ProcessCommand disk → Child ⊎ Text
start c = inl child

abbrev programs : List Text
programs = codes "git" ∷ codes "rm" ∷ []

abbrev runner : SandboxedRunner disk
runner = with_allow_list disk programs

abbrev command : ProcessCommand disk
command = record {
  executable = git;
  args = codes "branch" ∷ [];
  current_dir = some (codes "/repo");
  path = some (codes "/usr/bin");
}

abbrev values : List Text
values = codes "main" ∷ codes "dev" ∷ []

abbrev ran : Ran disk
ran = record {
  result = inl values;
  runner = record runner {
    cache = put (runner.cache) (branches.run) (codes "/repo") values 5000000000 0;
  };
  effects = Effect.spawn command ∷ [];
}

abbrev execution : Execution disk
execution = record { outcome = inl (codes "main\ndev\n"); effects = Effect.spawn command ∷ [] }

run_test : run disk start engine runner branches (codes "/repo") 0 ≡ some ran
unfolding run with_allow_list wait_child poll_fuel join
run_test = refl

not_listed_test :
    execute disk start runner (record branches { run = codes "rm" ∷ [] }) (codes "/")
    ≡ some (record { outcome = inr (GeneratorError.not_allow_listed (codes "rm")); effects = [] })
unfolding execute with_allow_list text_eq
not_listed_test = refl

schedule-IsPaced : IsPaced schedule
schedule-IsPaced round = omega arith

child-IsTimed :
    (c : ProcessCommand disk) (other : Child)
    → start c ≡ inl other
    → IsTimed other × IsTimely disk runner other
unfolding with_allow_list
child-IsTimed c other e =
    let q : child ≡ other = cc in
    subst (λ z. IsTimed z × IsTimely disk runner z) q
      ((schedule-IsPaced, (omega arith, refl)), omega arith)

execute_test : execute disk start runner branches (codes "/repo") ≡ some execution
unfolding execute with_allow_list wait_child poll_fuel join text_eq
execute_test = refl

unlisted : Generator
unlisted = record branches { run = codes "ls" ∷ [] }

unlisted_test :
    run disk start engine runner unlisted (codes "/repo") 0
    ≡ some (record {
      result = inr (GeneratorError.not_allow_listed (codes "ls"));
      runner = runner;
      effects = [];
    })
unfolding unlisted run with_allow_list text_eq
unlisted_test = refl

cold_test : cached disk runner branches (codes "/repo") 0 ≡ none
unfolding cached with_allow_list
cold_test = refl

run-IsListed_example :
    (program : Text) × ((args : List Text) × ((codes "git" ∷ codes "branch" ∷ [] ≡ program ∷ args)
        × (IsListed disk programs program git
            × ((codes "branch" ∷ [] ≡ args) × (some (codes "/repo") ≡ some (codes "/repo"))))))
run-IsListed_example =
    run-IsListed disk start engine programs runner branches (codes "/repo") 0 ran command
      Reachable.made run_test (here refl)

run-returns_example :
    (r : Ran disk) × (run disk start engine runner branches (codes "/repo") 0 ≡ some r)
run-returns_example = run-returns disk start engine runner child-IsTimed branches (codes "/repo") 0

execute-IsReaped_example : HasExited 100000000 child ⊎ IsReaped disk (execution.effects)
unfolding with_allow_list
execute-IsReaped_example =
    execute-IsReaped disk start runner branches (codes "/repo") execution command child
      (codes "main\ndev\n") execute_test (here refl) refl refl

-- The second generator reads the output by other rules, and gets the values of the first.
run-warm_example :
    run disk
      (λ c. inr (codes "gone"))
      engine
      (ran.runner)
      (record branches { split_on = some (codes "a") })
      (codes "/repo")
      4999999999
    ≡ some (record { result = inl values; runner = ran.runner; effects = [] })
unfolding ttl_of with_allow_list
run-warm_example =
    run-warm disk start engine runner branches (codes "/repo") 0 ran values
      (record branches { split_on = some (codes "a") }) 4999999999 (λ c. inr (codes "gone")) engine
      refl refl cold_test run_test refl (omega arith) refl refl

length-run_example : length values ≤ 262144 + 1
unfolding with_allow_list
length-run_example =
    length-run disk start engine runner branches (codes "/repo") 0 ran values cold_test run_test
      refl
