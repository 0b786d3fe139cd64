-- ===== src/Runner/Trusted.antt =====
-- crates/data/src/runner.rs: every process that a runner starts is one that its allow-list names.
use autosuggest_core.Base.{
  In-All, All, All-append, ◌≡◌, refl, sym, ap, ◌∙◌, subst, ℕ, Bool, true, false, List, [], ◌∷◌,
  Option, none, some, ◌⊎◌, inl, inr, In, here, there,
}
use autosuggest_core.Text.{Text}
use autosuggest_core.Spec.{Generator}
use autosuggest_core.Output.{Captures}
use autosuggest_core.Complete.{GeneratorError}
use autosuggest_core.Runner.Poll.{Waited}
use autosuggest_core.Runner.Courses.{Course, IsCommandOf, execute-Course, run-cases}
use autosuggest_core.Runner.{
  store, stop_child, kill_child_tree, kill_with, Child, SandboxedRunner, ProcessCommand, Effect,
  Execution, Ran, with_allow_list, with_timeout, with_max_output_bytes, execute, run,
}
use autosuggest_core.Runner.Policy.{System, allowed_executable}
use autosuggest_core.Runner.Listed.{IsListed, allowed_executable-IsListed}

module _ (system : System) where
  abbrev pub is_spawn : Effect system → Bool
  is_spawn (Effect.spawn c) = true
  is_spawn _ = false

  abbrev pub IsQuiet : List (Effect system) → Type 0
  IsQuiet effects = All (λ e. is_spawn e ≡ false) effects

  kill_with-IsQuiet : (child : Child) (tool : Option Text) → IsQuiet (kill_with system child tool)
  unfolding kill_with
  kill_with-IsQuiet child none = (refl, tt)
  kill_with-IsQuiet child (some tool) = (refl, (refl, tt))

  kill_child_tree-IsQuiet : (child : Child) → IsQuiet (kill_child_tree system child)
  unfolding kill_child_tree
  kill_child_tree-IsQuiet child = kill_with-IsQuiet child _

  pub stop_child-IsQuiet :
      (child : Child) (waited : Waited) → IsQuiet (stop_child system child waited)
  unfolding stop_child
  stop_child-IsQuiet child Waited.exit = tt
  stop_child-IsQuiet child Waited.overrun =
      All-append (λ e. is_spawn e ≡ false) (kill_child_tree system child) (Effect.wait ∷ [])
        (kill_child_tree-IsQuiet child) (refl, tt)
  stop_child-IsQuiet child (Waited.wait_error e) =
      All-append (λ e. is_spawn e ≡ false) (kill_child_tree system child) (Effect.wait ∷ [])
        (kill_child_tree-IsQuiet child) (refl, tt)

  -- A start among the effects of a started command is its own.
  pub spawn-In :
      (command c : ProcessCommand system) (effects : List (Effect system))
      → IsQuiet effects
      → In (Effect.spawn c) (Effect.spawn command ∷ effects)
      → c ≡ command
  spawn-In command c effects h (here e) = cc
  spawn-In command c effects h (there m) =
      absurd (let k = In-All (λ e. is_spawn e ≡ false) effects h m in cc)

  -- The runners that one made for `programs` becomes: by its builders, and by running generators.
  pub data Reachable (start : ProcessCommand system → Child ⊎ Text) (engine : Captures)
      (programs : List Text) : SandboxedRunner system → Type 1 where
    made : Reachable start engine programs (with_allow_list system programs)
    timed :
        {runner : SandboxedRunner system} (timeout : ℕ)
        → Reachable start engine programs runner
        → Reachable start engine programs (with_timeout system runner timeout)
    capped :
        {runner : SandboxedRunner system} (bytes : ℕ)
        → Reachable start engine programs runner
        → Reachable start engine programs (with_max_output_bytes system runner bytes)
    after_run :
        {runner : SandboxedRunner system} (generator : Generator) (cwd : Text) (now : ℕ)
        (ran : Ran system)
        → run system start engine runner generator cwd now ≡ some ran
        → Reachable start engine programs runner
        → Reachable start engine programs (ran.runner)

  module _ (start : ProcessCommand system → Child ⊎ Text) (engine : Captures) where
    -- What only the construction of a runner determines.
    SamePolicy : SandboxedRunner system → SandboxedRunner system → Type 0
    SamePolicy a b = ((a.allow_list) ≡ (b.allow_list)) × ((a.safe_path) ≡ (b.safe_path))

    store-SamePolicy :
        (runner : SandboxedRunner system) (generator : Generator) (cwd : Text) (now : ℕ)
        (effects : List (Effect system)) (o : Text ⊎ GeneratorError)
        → SamePolicy ((store system start engine runner generator cwd now effects o).runner) runner
          × (((store system start engine runner generator cwd now effects o).effects) ≡ effects)
    unfolding store SamePolicy
    store-SamePolicy runner generator cwd now effects (inl text) = ((refl, refl), refl)
    store-SamePolicy runner generator cwd now effects (inr e) = ((refl, refl), refl)

    run-SamePolicy :
        (runner : SandboxedRunner system) (generator : Generator) (cwd : Text) (now : ℕ)
        (ran : Ran system)
        → run system start engine runner generator cwd now ≡ some ran
        → SamePolicy (ran.runner) runner
    unfolding SamePolicy
    run-SamePolicy runner generator cwd now ran h =
        elim (run-cases system start engine runner generator cwd now ran h) [
          | inl (values, (e, q)) ↦ subst (λ r. SamePolicy (r.runner) runner) q (refl, refl)
          | inr (x, (e, (k, q))) ↦
              subst (λ r. SamePolicy (r.runner) runner) q
                (store-SamePolicy runner generator cwd now (x.effects) (x.outcome)).0
        ]

    Reachable-SamePolicy :
        (programs : List Text) (runner : SandboxedRunner system)
        → Reachable start engine programs runner
        → SamePolicy runner (with_allow_list system programs)
    unfolding SamePolicy with_timeout with_max_output_bytes
    Reachable-SamePolicy programs _ Reachable.made = (refl, refl)
    Reachable-SamePolicy programs _ (Reachable.timed {runner} t r) =
        Reachable-SamePolicy programs runner r
    Reachable-SamePolicy programs _ (Reachable.capped {runner} b r) =
        Reachable-SamePolicy programs runner r
    Reachable-SamePolicy programs _ (Reachable.after_run {runner} generator cwd now ran h r) =
        let (a, b) = run-SamePolicy runner generator cwd now ran h in
        let (c, d) = Reachable-SamePolicy programs runner r in (a ∙ c, b ∙ d)

    -- Every start of a process among the effects of an execution is that of the generator's command.
    execute-spawns :
        (runner : SandboxedRunner system) (generator : Generator) (cwd : Text)
        (execution : Execution system) (c : ProcessCommand system)
        → execute system start runner generator cwd ≡ some execution
        → In (Effect.spawn c) (execution.effects)
        → IsCommandOf system runner generator cwd c
    execute-spawns runner generator cwd execution c h m =
        elim (execute-Course system start runner generator cwd execution h) [
          | Course.refusal e o q ↦ (elim (rw q at m) [ ])
          | Course.no_start command t e is s o q ↦
              subst (λ x. IsCommandOf system runner generator cwd x)
                (sym (spawn-In command c [] tt (rw q at m))) is
          | Course.no_pipe command child e is s n o q ↦
              subst (λ x. IsCommandOf system runner generator cwd x)
                (sym (spawn-In command c [] tt (rw q at m))) is
          | Course.waiting command child bytes waited is s n w o q ↦
              subst (λ x. IsCommandOf system runner generator cwd x)
                (sym (spawn-In command c _ (stop_child-IsQuiet child waited) (rw q at m))) is
        ]

    -- A runner that was made for a list of programs, and then set up and used in any way, starts a
    -- child only for a program of that list which heads the generator's command, and then an
    -- executable file at the path that the program is or in a trusted directory, with the generator's
    -- arguments in the given directory.
    pub run-IsListed :
        (programs : List Text) (runner : SandboxedRunner system) (generator : Generator)
        (cwd : Text) (now : ℕ) (ran : Ran system) (c : ProcessCommand system)
        → Reachable start engine programs runner
        → run system start engine runner generator cwd now ≡ some ran
        → In (Effect.spawn c) (ran.effects)
        → (program : Text) × ((args : List Text) × ((generator.run ≡ program ∷ args)
              × (IsListed system programs program (c.executable)
                  × (((c.args) ≡ args) × ((c.current_dir) ≡ some cwd)))))
    unfolding with_allow_list SamePolicy
    run-IsListed programs runner generator cwd now ran c r h m =
        elim (run-cases system start engine runner generator cwd now ran h) [
          | inl (values, (e, q)) ↦
              (elim (subst (λ z. In (Effect.spawn c) (z.effects)) (sym q) m) [ ])
          | inr (x, (e, (k, q))) ↦
              let m' = subst (λ z. In (Effect.spawn c) (z.effects)) (sym q) m in
              let m'' =
                subst (λ z. In (Effect.spawn c) z)
                  (store-SamePolicy runner generator cwd now (x.effects) (x.outcome)).1 m' in
              let (program, (args, (executable, (a, (b, d))))) =
                execute-spawns runner generator cwd x c k m'' in
              let b' =
                subst (λ z. allowed_executable system z program ≡ some executable)
                  (Reachable-SamePolicy programs runner r).0 b in
              (
                program,
                (
                  args,
                  (
                    a,
                    (
                      subst (λ z. IsListed system programs program z)
                          (sym (ap (λ z. z.executable) d))
                          (allowed_executable-IsListed system programs program executable b'),
                      (ap (λ z. z.args) d, ap (λ z. z.current_dir) d),
                    ),
                  ),
                ),
              )
        ]
