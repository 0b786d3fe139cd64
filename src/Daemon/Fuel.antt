-- ===== src/Daemon/Fuel.antt =====
-- crates/daemon/src/main.rs: more fuel than is enough changes nothing.
use autosuggest_core.Base.{◌≡◌, refl, ℕ, zero, suc, ◌≤◌, List, some, Option-cases, inl, inr, arith}
use autosuggest_core.Text.{Text}
use autosuggest_core.Daemon.Stdin.{Turn, Served, turn, serve}

module _ (limit : ℕ) (handle : Text → Text) where
  round_fuel :
      (f g : ℕ) (input : List ℕ) (served : Served) (t : Turn)
      → turn limit handle input ≡ t
      → ((rest : List ℕ) (s : Served)
          → serve limit handle f rest ≡ some s
          → serve limit handle g rest ≡ some s)
      → serve limit handle (suc f) input ≡ some served
      → serve limit handle (suc g) input ≡ some served
  unfolding serve
  round_fuel f g input served Turn.end_of_input e ih h = rw (serve, e) (rw (serve, e) at h)
  round_fuel f g input served Turn.invalid_data e ih h = rw (serve, e) (rw (serve, e) at h)
  round_fuel f g input served Turn.panicked e ih h = rw (serve, e) (rw (serve, e) at h)
  round_fuel f g input served (Turn.skipped rest) e ih h =
      rw (serve, e) (ih rest served (rw (serve, e) at h))
  round_fuel f g input served (Turn.answered response rest) e ih h =
      elim (Option-cases (serve limit handle f rest)) [
        | inl k ↦ absurd (let l = rw (serve, e, k) at h in cc)
        | inr (s, k) ↦ rw (serve, e, ih rest s k) (rw (serve, e, k) at h)
      ]

  pub serve_fuel :
      (f g : ℕ) (input : List ℕ) (served : Served)
      → f ≤ g
      → serve limit handle f input ≡ some served
      → serve limit handle g input ≡ some served
  unfolding serve
  serve_fuel zero g input served l h = absurd (cc)
  serve_fuel (suc f) zero input served l h = absurd (omega (arith, l))
  serve_fuel (suc f) (suc g) input served l h =
      round_fuel f g input served (turn limit handle input) refl
        (λ rest s. serve_fuel f g rest s (omega (arith, l))) h
