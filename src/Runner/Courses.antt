-- ===== src/Runner/Courses.antt =====
-- crates/data/src/runner.rs: the ways in which an execution goes.
use autosuggest_core.Base.{
  true, false, leb, Bool-cases, ap, ◌≡◌, refl, sym, ◌+◌, ℕ, List, [], ◌∷◌, none, some, ◌⊎◌, inl,
  inr, Option-cases,
}
use autosuggest_core.Runner.{
  deadline_after, store, run, cached, Ran, Captures, Child, SandboxedRunner, ProcessCommand, Effect,
  Execution, execute, spawn_child, stop_child, collect_output, await_child,
}
use autosuggest_core.Text.{Text}
use autosuggest_core.Spec.{Generator}
use autosuggest_core.Complete.{GeneratorError}
use autosuggest_core.Runner.Policy.{System, allowed_executable}
use autosuggest_core.Runner.Poll.{Waited, wait_child, poll_fuel}

module _ (system : System) where
  -- The command that a generator stands for, with the executable that the allow-list gives.
  abbrev pub IsCommandOf :
      SandboxedRunner system → Generator → Text → ProcessCommand system → Type 0
  IsCommandOf runner generator cwd command =
      (program : Text) × ((args : List Text) × ((executable : system.PathBuf) × ((generator.run
              ≡ program ∷ args)
            × ((allowed_executable system (runner.allow_list) program ≡ some executable)
                × (command ≡ record {
                  executable = executable;
                  args = args;
                  current_dir = some cwd;
                  path = runner.safe_path;
                })))))

  -- An execution that ends before a child is there, one whose child has no pipe, and one that waits
  -- for its child.
  pub data Course (start : ProcessCommand system → Child ⊎ Text) (runner : SandboxedRunner system)
      (generator : Generator) (cwd : Text) (execution : Execution system) : Type 0 where
    refusal :
        (e : GeneratorError)
        → execution.outcome ≡ inr e
        → execution.effects ≡ []
        → Course start runner generator cwd execution
    no_start :
        (command : ProcessCommand system) (m : Text) (e : GeneratorError)
        → IsCommandOf runner generator cwd command
        → start command ≡ inr m
        → execution.outcome ≡ inr e
        → execution.effects ≡ Effect.spawn command ∷ []
        → Course start runner generator cwd execution
    no_pipe :
        (command : ProcessCommand system) (child : Child) (e : GeneratorError)
        → IsCommandOf runner generator cwd command
        → start command ≡ inl child
        → child.stdout ≡ none
        → execution.outcome ≡ inr e
        → execution.effects ≡ Effect.spawn command ∷ []
        → Course start runner generator cwd execution
    waiting :
        (command : ProcessCommand system) (child : Child) (bytes : List ℕ) (waited : Waited)
        → IsCommandOf runner generator cwd command
        → start command ≡ inl child
        → child.stdout ≡ some bytes
        → wait_child child.schedule (child.started + runner.timeout) (poll_fuel (runner.timeout)) 0
          ≡ some waited
        → collect_output system runner child bytes waited ≡ some (execution.outcome)
        → execution.effects ≡ Effect.spawn command ∷ stop_child system child waited
        → Course start runner generator cwd execution

  pub deadline-timely :
      (started timeout : ℕ)
      → leb (started + timeout) (system.last_instant) ≡ true
      → deadline_after system started timeout ≡ some (started + timeout)
  unfolding deadline_after
  deadline-timely started timeout l = rw l refl

  deadline-late :
      (started timeout : ℕ)
      → leb (started + timeout) (system.last_instant) ≡ false
      → deadline_after system started timeout ≡ none
  unfolding deadline_after
  deadline-late started timeout l = rw l refl

  module _ (start : ProcessCommand system → Child ⊎ Text) (runner : SandboxedRunner system)
      (generator : Generator) (cwd : Text) (execution : Execution system) where
    fields_lem :
        (o : Text ⊎ GeneratorError) (effects : List (Effect system))
        → some (record { outcome = o; effects = effects }) ≡ some execution
        → (execution.outcome ≡ o) × (execution.effects ≡ effects)
    fields_lem o effects h =
        let q : record { outcome = o; effects = effects } ≡ execution = cc in
        (sym (ap (λ x. x.outcome) q), sym (ap (λ x. x.effects) q))

    await_child-Course :
        (command : ProcessCommand system) (child : Child) (bytes : List ℕ)
        → IsCommandOf runner generator cwd command
        → start command ≡ inl child
        → child.stdout ≡ some bytes
        → await_child system runner child (Effect.spawn command ∷ []) ≡ some execution
        → Course start runner generator cwd execution
    unfolding await_child
    await_child-Course command child bytes is e q h =
        elim (Bool-cases (leb (child.started + runner.timeout) (system.last_instant))) [
          | inr l ↦ absurd (
              let d = deadline-late child.started (runner.timeout) l in
              let h' = rw (q, d) at h in cc)
          | inl l ↦
              let d = deadline-timely child.started (runner.timeout) l in
              elim (Option-cases (
                wait_child child.schedule (child.started + runner.timeout)
                  (poll_fuel (runner.timeout)) 0)) [
                    | inl n ↦ absurd (let h' = rw (q, d, n) at h in cc)
                    | inr (waited, w) ↦
                        elim (Option-cases (collect_output system runner child bytes waited)) [
                          | inl n ↦ absurd (let h' = rw (q, d, w, n) at h in cc)
                          | inr (o, k) ↦
                              let (a, b) =
                                fields_lem o (Effect.spawn command ∷ stop_child system child waited)
                                  (rw (q, d, w, k) at h) in
                              Course.waiting command child bytes waited is e q w (rw a k) b
                        ]
                  ]
        ]

    spawn_child-Course :
        (program : Text) (command : ProcessCommand system)
        → IsCommandOf runner generator cwd command
        → spawn_child system start runner program command ≡ some execution
        → Course start runner generator cwd execution
    unfolding spawn_child
    spawn_child-Course program command is h = elim (start-cases (start command)) [
      | inr (m, e) ↦
          let (a, b) = fields_lem _ _ (rw (spawn_child, e) at h) in
          Course.no_start command m _ is e a b
      | inl (child, e) ↦ elim (Option-cases child.stdout) [
        | inl n ↦
            let (a, b) = fields_lem _ _ (rw (spawn_child, e, await_child, n) at h) in
            Course.no_pipe command child _ is e n a b
        | inr (bytes, q) ↦ await_child-Course command child bytes is e q (rw (spawn_child, e) at h)
      ]
    ]
      where
        start-cases :
            (o : Child ⊎ Text) → ((child : Child) × (o ≡ inl child)) ⊎ ((m : Text) × (o ≡ inr m))
        start-cases (inl child) = inl (child, refl)
        start-cases (inr m) = inr (m, refl)

    -- Every execution goes one of these ways.
    pub execute-Course :
        execute system start runner generator cwd ≡ some execution
        → Course start runner generator cwd execution
    unfolding execute
    execute-Course h = elim (run-cases (generator.run)) [
      | inl e ↦ (let (a, b) = fields_lem _ _ (rw e at h) in Course.refusal _ a b)
      | inr (program, (args, e)) ↦
          elim (Option-cases (allowed_executable system (runner.allow_list) program)) [
            | inl n ↦
                (let (a, b) = fields_lem _ _ (rw (execute, e, n) at h) in Course.refusal _ a b)
            | inr (x, n) ↦
                spawn_child-Course program _ (program, (args, (x, (e, (n, refl)))))
                  (rw (execute, e, n) at h)
          ]
    ]
      where
        run-cases : (ts : List Text) → (ts ≡ []) ⊎ ((t : Text) × ((us : List Text) × (ts ≡ t ∷ us)))
        run-cases [] = inl refl
        run-cases (t ∷ us) = inr (t, (us, refl))

  module _ (start : ProcessCommand system → Child ⊎ Text) (engine : Captures) where
    -- A call is answered from the cache, or by an execution.
    pub run-cases :
        (runner : SandboxedRunner system) (generator : Generator) (cwd : Text) (now : ℕ)
        (ran : Ran system)
        → run system start engine runner generator cwd now ≡ some ran
        → ((values : List Text) × ((cached system runner generator cwd now ≡ some values)
              × (record { result = inl values; runner = runner; effects = [] } ≡ ran)))
          ⊎ ((execution : Execution system) × ((cached system runner generator cwd now ≡ none)
                × ((execute system start runner generator cwd ≡ some execution)
                    × (store system start engine runner generator cwd now
                          (execution.effects)
                          (execution.outcome)
                        ≡ ran))))
    unfolding run
    run-cases runner generator cwd now ran h =
        elim (Option-cases (cached system runner generator cwd now)) [
          | inr (values, e) ↦ inl (values, (e, (let h' = rw (run, e) at h in cc)))
          | inl e ↦ elim (Option-cases (execute system start runner generator cwd)) [
            | inl n ↦ absurd (let h' = rw (run, e, n) at h in cc)
            | inr (x, n) ↦ inr (x, (e, (n, (let h' = rw (run, e, n) at h in cc))))
          ]
        ]
