-- ===== src/Runner/Poll.antt =====
-- crates/data/src/runner.rs: the loop that waits for a child until its deadline.
-- Times are numbers of nanoseconds. What the loop meets is a schedule: for each round, what
-- `try_wait` answers and the instant that `Instant::now` gives behind it.
use autosuggest_core.Base.{
  ◌⊎◌, subst, ◌≡◌, refl, ℕ, zero, suc, ◌+◌, ◌/◌, ◌*◌, ◌≤◌, ◌<◌, false, Option, none, some, leb,
  if◌then◌else◌, arith, Bool-cases, inl, inr,
}
use autosuggest_core.Text.{Text}

pub data TryWait : Type 0 where
  exited running : TryWait
  failed : Text → TryWait

pub record Schedule : Type 0 where
  pub try_wait : ℕ → TryWait
  pub now : ℕ → ℕ

pub data Waited : Type 0 where
  exit : Waited
  overrun : Waited
  wait_error : Text → Waited

-- 2 ms
abbrev pub poll_interval : ℕ
poll_interval = 2000000

-- The loop from `round` on; without fuel there is no answer.
unfoldable pub wait_child : Schedule → ℕ → ℕ → ℕ → Option Waited
wait_child schedule deadline zero round = none
wait_child schedule deadline (suc fuel) round =
    let rest = wait_child schedule deadline fuel (suc round) in
    elim (schedule.try_wait round) [
      | TryWait.exited ↦ some Waited.exit
      | TryWait.running ↦ if leb deadline (schedule.now round) then some Waited.overrun else rest
      | TryWait.failed e ↦ some (Waited.wait_error e)
    ]

-- `sleep` lasts its interval at least: between two rounds the clock moves on by it.
abbrev pub IsPaced : Schedule → Type 0
IsPaced schedule = (round : ℕ) → schedule.now round + poll_interval ≤ schedule.now (suc round)

-- What the loop saw in a round in which it stopped.
abbrev pub StopsAt : Schedule → ℕ → ℕ → Waited → Type 0
StopsAt schedule deadline round Waited.exit = schedule.try_wait round ≡ TryWait.exited
StopsAt schedule deadline round Waited.overrun =
    (schedule.try_wait round ≡ TryWait.running) × (deadline ≤ schedule.now round)
StopsAt schedule deadline round (Waited.wait_error e) = schedule.try_wait round ≡ TryWait.failed e

-- A round that goes to sleep.
abbrev pub Sleeps : Schedule → ℕ → ℕ → Type 0
Sleeps schedule deadline round =
    (schedule.try_wait round ≡ TryWait.running) × (schedule.now round < deadline)

-- The loop answers `waited` in the round `rounds` behind `round`, and slept in those between.
abbrev pub Answers : Schedule → ℕ → ℕ → ℕ → Waited → Type 0
Answers schedule deadline round rounds waited =
    StopsAt schedule deadline (round + rounds) waited
    × ((j : ℕ) → j < rounds → Sleeps schedule deadline (round + j))

-- Enough fuel for a time limit: its rounds, the first and the last.
unfoldable pub poll_fuel : ℕ → ℕ
poll_fuel timeout = timeout / poll_interval + 2

module _ (schedule : Schedule) (deadline : ℕ) where
  TryWait-cases :
      (t : TryWait)
      → (t ≡ TryWait.exited) ⊎ ((t ≡ TryWait.running) ⊎ ((e : Text) × (t ≡ TryWait.failed e)))
  TryWait-cases TryWait.exited = inl refl
  TryWait-cases TryWait.running = inr (inl refl)
  TryWait-cases (TryWait.failed e) = inr (inr (e, refl))

  at_once :
      (round : ℕ) (w : Waited)
      → StopsAt schedule deadline round w
      → Answers schedule deadline round 0 w
  at_once round w h =
      (subst (λ r. StopsAt schedule deadline r w) (omega arith) h, λ j k. absurd (omega (arith, k)))

  later :
      (round rounds : ℕ) (w : Waited)
      → Sleeps schedule deadline round
      → Answers schedule deadline (suc round) rounds w
      → Answers schedule deadline round (suc rounds) w
  later round rounds w s (a, b) = (
    subst (λ r. StopsAt schedule deadline r w) (omega arith) a,
    λ j k.
        (elim j as (λ j. j < suc rounds → Sleeps schedule deadline (round + j)) [
          | zero ↦ λ _. subst (λ r. Sleeps schedule deadline r) (omega arith) s
          | suc i ↦
              λ k. subst (λ r. Sleeps schedule deadline r) (omega arith) (b i (omega (arith, k)))
        ])
          k,
  )

  -- An answer within `fuel` further rounds.
  Ends : ℕ → ℕ → Type 0
  Ends fuel round =
      (rounds : ℕ) × ((w : Waited) × ((rounds ≤ fuel)
          × ((wait_child schedule deadline (suc fuel) round ≡ some w)
              × Answers schedule deadline round rounds w)))

  asleep :
      (fuel round : ℕ)
      → schedule.try_wait round ≡ TryWait.running
      → leb deadline (schedule.now round) ≡ false
      → Ends fuel (suc round)
      → Ends (suc fuel) round
  unfolding Ends wait_child
  asleep fuel round e n (rounds, (w, (b, (q, a)))) = (
    suc rounds,
    (
      w,
      (omega (arith, b), (rw (wait_child, e, n) q, later round rounds w (e, ground (arith, n)) a)),
    ),
  )

  -- A round answers unless the child runs and the deadline is not reached.
  round_lem :
      (fuel round : ℕ)
      → (schedule.try_wait round ≡ TryWait.running
          → leb deadline (schedule.now round) ≡ false
          → Ends fuel round)
      → Ends fuel round
  unfolding Ends wait_child
  round_lem fuel round next = elim (TryWait-cases (schedule.try_wait round)) [
    | inl e ↦
        (0, (Waited.exit, (omega arith, (rw (wait_child, e) refl, at_once round Waited.exit e))))
    | inr (inr (m, e)) ↦ (
      0,
      (
        Waited.wait_error m,
        (omega arith, (rw (wait_child, e) refl, at_once round (Waited.wait_error m) e)),
      ),
    )
    | inr (inl e) ↦ elim (Bool-cases (leb deadline (schedule.now round))) [
      | inl l ↦ (
        0,
        (
          Waited.overrun,
          (
            omega arith,
            (rw (wait_child, e, l) refl, at_once round Waited.overrun (e, ground (arith, l))),
          ),
        ),
      )
      | inr l ↦ next e l
    ]
  ]

  wait_child-Ends :
      IsPaced schedule
      → (fuel round : ℕ) → deadline ≤ schedule.now round + fuel * poll_interval
      → Ends fuel round
  wait_child-Ends paced zero round h = round_lem zero round (λ e l. absurd (ground (arith, h, l)))
  wait_child-Ends paced (suc fuel) round h = round_lem (suc fuel) round (λ e l.
      asleep fuel round e l
        (wait_child-Ends paced fuel (suc round) (omega (arith, h, paced round))))

-- Where every sleep lasts at least its interval, the loop ends within the rounds that the time limit
-- holds and one more, with the fuel of `poll_fuel`; it reports an exit or a failure as `try_wait` does
-- in its last round, or an overrun in a round at or behind the deadline in which the child still
-- runs, and in every earlier round the child ran and the deadline was not reached.
pub wait_child-Answers :
    (schedule : Schedule) (start timeout : ℕ)
    → IsPaced schedule
    → start ≤ schedule.now 0
    → (rounds : ℕ) × ((w : Waited) × ((rounds ≤ timeout / poll_interval + 1)
          × ((wait_child schedule (start + timeout) (poll_fuel timeout) 0 ≡ some w)
              × Answers schedule (start + timeout) 0 rounds w)))
unfolding poll_fuel Ends
wait_child-Answers schedule start timeout paced h =
    let r =
      wait_child-Ends schedule (start + timeout) paced (timeout / poll_interval + 1) 0
        (omega (arith, h)) in
    (
      r.0,
      (
        r.1.0,
        (
          r.1.1.0,
          (
            subst (λ f. wait_child schedule (start + timeout) f 0 ≡ some (r.1.0)) (omega arith)
                r.1.1.1.0,
            r.1.1.1.1,
          ),
        ),
      ),
    )

-- The loop reports an exit only if `try_wait` did in its last round, behind rounds that slept.
pub wait_child-exit :
    (schedule : Schedule) (deadline fuel round : ℕ)
    → wait_child schedule deadline fuel round ≡ some Waited.exit
    → (rounds : ℕ) × Answers schedule deadline round rounds Waited.exit
unfolding wait_child
wait_child-exit schedule deadline zero round h = absurd (cc)
wait_child-exit schedule deadline (suc fuel) round h =
    elim (TryWait-cases schedule deadline (schedule.try_wait round)) [
      | inl e ↦ (0, at_once schedule deadline round Waited.exit e)
      | inr (inr (m, e)) ↦ absurd (let h' = rw (wait_child, e) at h in cc)
      | inr (inl e) ↦ elim (Bool-cases (leb deadline (schedule.now round))) [
        | inl l ↦ absurd (let h' = rw (wait_child, e, l) at h in cc)
        | inr l ↦
            let (rounds, a) =
              wait_child-exit schedule deadline fuel (suc round) (rw (wait_child, e, l) at h) in
            (suc rounds, later schedule deadline round rounds Waited.exit (e, ground (arith, l)) a)
      ]
    ]
