-- ===== src/Runner/Ends.antt =====
-- crates/data/src/runner.rs: that a call returns, and what it leaves behind.
use autosuggest_core.Base.{
  append_assoc, ◌∙◌, arith, ◌<◌, ap, ◌≡◌, refl, sym, subst, ℕ, ◌+◌, ◌≤◌, true, List, [], ◌∷◌, ◌++◌,
  Option, none, some, ◌⊎◌, inl, inr, Option-cases, In, is_some, some_of,
}
use autosuggest_core.Runner.Poll.{
  Sleeps, TryWait, wait_child-exit, Waited, IsPaced, wait_child, poll_fuel, wait_child-Answers,
}
use autosuggest_core.Runner.Courses.{deadline-timely, Course, execute-Course}
use autosuggest_core.Text.{Text}
use autosuggest_core.Spec.{Generator}
use autosuggest_core.Output.{Captures}
use autosuggest_core.Runner.{
  Child, SandboxedRunner, ProcessCommand, Effect, Execution, Ran, execute, spawn_child, await_child,
  collect_output, stop_child, kill_child_tree, kill_with, run, cached,
}
use autosuggest_core.Runner.Trusted.{spawn-In, stop_child-IsQuiet}
use autosuggest_core.Runner.Policy.{System, allowed_executable}

-- The clock of a child's rounds moves on with every sleep, and its output comes to an end.
abbrev pub IsTimed : Child → Type 0
IsTimed child =
    IsPaced child.schedule × ((child.started ≤ child.schedule.now 0) × (child.is_drained ≡ true))

-- The loop saw the child exit: the child ran, before the deadline, in every round up to that one.
abbrev pub HasExited : ℕ → Child → Type 0
HasExited timeout child =
    (round : ℕ) × ((child.schedule.try_wait round ≡ TryWait.exited)
      × ((j : ℕ) → j < round → Sleeps child.schedule (child.started + timeout) j))

module _ (system : System) where
  -- The child was killed, and waited for behind that.
  abbrev pub IsReaped : List (Effect system) → Type 0
  IsReaped effects =
      (before : List (Effect system)) × ((middle : List (Effect system)) × ((after : List
            (Effect system))
          × (effects ≡ before ++ Effect.kill ∷ (middle ++ Effect.wait ∷ after))))

  -- The deadline of a child is an instant that can be represented.
  abbrev pub IsTimely : SandboxedRunner system → Child → Type 0
  IsTimely runner child = child.started + runner.timeout ≤ system.last_instant

  module _ (start : ProcessCommand system → Child ⊎ Text) where
    await_child-returns :
        (runner : SandboxedRunner system) (child : Child) (before : List (Effect system))
        → IsTimed child
        → IsTimely runner child
        → is_some (await_child system runner child before) ≡ true
    unfolding await_child collect_output
    await_child-returns runner child before (p, (s, d)) t = elim (Option-cases child.stdout) [
      | inl n ↦ rw (await_child, n) refl
      | inr (bytes, n) ↦
          let (k, (w, (b, (e, a)))) =
            wait_child-Answers child.schedule child.started (runner.timeout) p s in
          rw
            (
              await_child,
              n,
              deadline-timely system child.started (runner.timeout) (ground (arith, t)),
              e,
              d,
            )
            refl
    ]

    spawn_child-returns :
        (runner : SandboxedRunner system)
        → ((c : ProcessCommand system) (child : Child)
            → start c ≡ inl child
            → IsTimed child × IsTimely runner child)
        → (program : Text) (command : ProcessCommand system)
        → is_some (spawn_child system start runner program command) ≡ true
    unfolding spawn_child
    spawn_child-returns runner timed program command = go (start command) refl
      where
        go :
            (o : Child ⊎ Text)
            → start command ≡ o
            → is_some (spawn_child system start runner program command) ≡ true
        go (inl child) e =
            rw (spawn_child, e)
              (let (t, d) = timed command child e in
                await_child-returns runner child (Effect.spawn command ∷ []) t d)
        go (inr m) e = rw (spawn_child, e) refl

    execute-returns :
        (runner : SandboxedRunner system)
        → ((c : ProcessCommand system) (child : Child)
            → start c ≡ inl child
            → IsTimed child × IsTimely runner child)
        → (generator : Generator) (cwd : Text)
        → is_some (execute system start runner generator cwd) ≡ true
    unfolding execute
    execute-returns runner timed generator cwd = go (generator.run) refl
      where
        go :
            (ts : List Text)
            → generator.run ≡ ts
            → is_some (execute system start runner generator cwd) ≡ true
        go [] e = rw (execute, e) refl
        go (program ∷ args) e =
            elim (Option-cases (allowed_executable system (runner.allow_list) program)) [
              | inl n ↦ rw (execute, e, n) refl
              | inr (x, n) ↦ rw (execute, e, n) (spawn_child-returns runner timed program _)
            ]

    run-is_some :
        (engine : Captures) (runner : SandboxedRunner system)
        → ((c : ProcessCommand system) (child : Child)
            → start c ≡ inl child
            → IsTimed child × IsTimely runner child)
        → (generator : Generator) (cwd : Text) (now : ℕ)
        → is_some (run system start engine runner generator cwd now) ≡ true
    unfolding run
    run-is_some engine runner timed generator cwd now =
        elim (Option-cases (cached system runner generator cwd now)) [
          | inr (values, e) ↦ rw (run, e) refl
          | inl e ↦
              let (x, n) =
                some_of (execute system start runner generator cwd)
                  (execute-returns runner timed generator cwd) in
              rw (run, e, n) refl
        ]

    -- Where the clock of every child moves on with its sleeps, its output comes to an end, and its
    -- deadline is an instant that can be represented, every call of `run` on that runner returns, with
    -- every generator and every cache.
    pub run-returns :
        (engine : Captures) (runner : SandboxedRunner system)
        → ((c : ProcessCommand system) (child : Child)
            → start c ≡ inl child
            → IsTimed child × IsTimely runner child)
        → (generator : Generator) (cwd : Text) (now : ℕ)
        → (ran : Ran system) × (run system start engine runner generator cwd now ≡ some ran)
    run-returns engine runner timed generator cwd now =
        some_of (run system start engine runner generator cwd now)
          (run-is_some engine runner timed generator cwd now)

    -- The kill comes last.
    kill_with-kill :
        (child : Child) (tool : Option Text)
        → (before : List (Effect system)) × (kill_with system child tool
            ≡ before ++ Effect.kill ∷ [])
    unfolding kill_with
    kill_with-kill child none = ([], refl)
    kill_with-kill child (some tool) = (_ ∷ [], refl)

    killed-IsReaped :
        (child : Child) (c : ProcessCommand system)
        → IsReaped (Effect.spawn c ∷ (kill_child_tree system child ++ Effect.wait ∷ []))
    unfolding kill_child_tree
    killed-IsReaped child c =
        let (before, e) = kill_with-kill child _ in
        (
          Effect.spawn c ∷ before,
          (
            [],
            (
              [],
              ap (λ z. Effect.spawn c ∷ z)
                  (ap (λ z. z ++ Effect.wait ∷ []) e
                    ∙ append_assoc before (Effect.kill ∷ []) (Effect.wait ∷ [])),
            ),
          ),
        )

    waited-IsReaped :
        (runner : SandboxedRunner system) (child : Child) (c : ProcessCommand system)
        (waited : Waited)
        → wait_child child.schedule (child.started + runner.timeout) (poll_fuel (runner.timeout)) 0
          ≡ some waited
        → HasExited (runner.timeout) child
          ⊎ IsReaped (Effect.spawn c ∷ stop_child system child waited)
    unfolding stop_child
    waited-IsReaped runner child c Waited.exit h =
        let (round, (e, sleeps)) = wait_child-exit child.schedule _ _ 0 h in
        let z : 0 + round ≡ round = omega arith in
        inl (
          round,
          (
            subst (λ r. child.schedule.try_wait r ≡ TryWait.exited) z e,
            λ j k.
                subst (λ r. Sleeps child.schedule (child.started + runner.timeout) r) (omega arith)
                  (sleeps j k),
          ),
        )
    waited-IsReaped runner child c Waited.overrun h = inr (killed-IsReaped child c)
    waited-IsReaped runner child c (Waited.wait_error e) h = inr (killed-IsReaped child c)

    -- When an execution has returned, a child that it started, with the pipe that it asked for, was
    -- seen to exit in a round of the loop, behind rounds in which it ran before the deadline, or was
    -- killed and, after that, waited for.
    pub execute-IsReaped :
        (runner : SandboxedRunner system) (generator : Generator) (cwd : Text)
        (execution : Execution system) (c : ProcessCommand system) (child : Child) (bytes : List ℕ)
        → execute system start runner generator cwd ≡ some execution
        → In (Effect.spawn c) (execution.effects)
        → start c ≡ inl child
        → child.stdout ≡ some bytes
        → HasExited (runner.timeout) child ⊎ IsReaped (execution.effects)
    execute-IsReaped runner generator cwd execution c child bytes h m s p =
        elim (execute-Course system start runner generator cwd execution h) [
          | Course.refusal e o q ↦ (elim (rw q at m) [ ])
          | Course.no_start command t e is k o q ↦
              absurd (let k' = rw (sym (spawn-In system command c [] tt (rw q at m))) at k in cc)
          | Course.no_pipe command other e is k n o q ↦ absurd (
              let k' = rw (sym (spawn-In system command c [] tt (rw q at m))) at k in
              let x : child ≡ other = cc in cc)
          | Course.waiting command other b waited is k n w o q ↦
              let e =
                spawn-In system command c _ (stop_child-IsQuiet system other waited) (rw q at m) in
              let k' = rw (sym e) at k in
              let x : other ≡ child = cc in
              rw q (
                subst
                  (λ z.
                    HasExited (runner.timeout) z
                    ⊎ IsReaped (Effect.spawn command ∷ stop_child system other waited))
                  x (waited-IsReaped runner other command waited w))
        ]
