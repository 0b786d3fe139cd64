-- ===== src/Runner/Warm.antt =====
-- crates/data/src/runner.rs: what a call finds of the calls before it, and how much it returns.
use autosuggest_core.Base.{
  ◌≡◌, refl, sym, subst, ℕ, ◌+◌, ◌<◌, ◌==◌, false, List, [], none, some, ◌⊎◌, inl, inr, arith,
}
use autosuggest_core.Text.{Text}
use autosuggest_core.Spec.{Generator}
use autosuggest_core.Output.{Captures, parse_output}
use autosuggest_core.Complete.{GeneratorError}
use autosuggest_core.Cache.Latest.{get-put}
use autosuggest_core.Runner.{
  Child, SandboxedRunner, ProcessCommand, Effect, Ran, run, cached, store, ttl_of,
}
use autosuggest_core.Runner.Courses.{run-cases}
use autosuggest_core.Runner.Policy.{System}

module _ (system : System) (start : ProcessCommand system → Child ⊎ Text) (engine : Captures) where
  module _ (runner : SandboxedRunner system) (generator : Generator) (cwd : Text) (now : ℕ) where
    -- What is stored can be found.
    cached-store :
        (effects : List (Effect system)) (o : Text ⊎ GeneratorError) (values : List Text)
        (other : Generator) (later : ℕ)
        → runner.cache.poisoned ≡ false
        → (ttl_of (generator.cache) == 0) ≡ false
        → later < now + ttl_of (generator.cache)
        → other.run ≡ generator.run
        → (ttl_of (other.cache) == 0) ≡ false
        → (store system start engine runner generator cwd now effects o).result ≡ inl values
        → cached system
            ((store system start engine runner generator cwd now effects o).runner)
            other
            cwd
            later
          ≡ some values
    unfolding cached store
    cached-store effects (inr e) values other later p t l r u h = absurd (cc)
    cached-store effects (inl text) values other later p t l r u h =
        let k : parse_output engine generator text ≡ values = cc in
        rw (cached, u, r, sym k)
          (get-put (runner.cache) (generator.run) cwd _ _ now later p t (ground (arith, l)))

    -- After a call that found nothing in an unpoisoned cache, and returned values, where its generator
    -- has a time to live that is not zero: every call of the same command in the same directory within
    -- that time, for a generator that has a time to live of its own that is not zero, gets these values
    -- from the cache and starts no process, whatever that generator's rules for the output are and
    -- whatever programs there are then.
    pub run-warm :
        (ran : Ran system) (values : List Text) (other : Generator) (later : ℕ)
        (start' : ProcessCommand system → Child ⊎ Text) (engine' : Captures)
        → runner.cache.poisoned ≡ false
        → (ttl_of (generator.cache) == 0) ≡ false
        → cached system runner generator cwd now ≡ none
        → run system start engine runner generator cwd now ≡ some ran
        → ran.result ≡ inl values
        → later < now + ttl_of (generator.cache)
        → other.run ≡ generator.run
        → (ttl_of (other.cache) == 0) ≡ false
        → run system start' engine' (ran.runner) other cwd later
          ≡ some (record { result = inl values; runner = ran.runner; effects = [] })
    unfolding run
    run-warm ran values other later start' engine' p t n h v l r u =
        elim (run-cases system start engine runner generator cwd now ran h) [
          | inl (old, (e, q)) ↦ absurd (let e' = rw n at e in cc)
          | inr (x, (e, (k, q))) ↦
              let v' = subst (λ z. (z.result) ≡ inl values) (sym q) v in
              let c = cached-store (x.effects) (x.outcome) values other later p t l r u v' in
              let c' = subst (λ z. cached system (z.runner) other cwd later ≡ some values) q c in
              rw (run, c') refl
        ]

    store-error :
        (effects : List (Effect system)) (o : Text ⊎ GeneratorError) (e : GeneratorError)
        → (store system start engine runner generator cwd now effects o).result ≡ inr e
        → (store system start engine runner generator cwd now effects o).runner ≡ runner
    unfolding store
    store-error effects (inl text) e h = absurd (cc)
    store-error effects (inr m) e h = refl

    -- A call that fails leaves the runner and its cache as they were: no failure is ever cached.
    pub run-error :
        (ran : Ran system) (e : GeneratorError)
        → run system start engine runner generator cwd now ≡ some ran
        → ran.result ≡ inr e
        → ran.runner ≡ runner
    run-error ran e h v = elim (run-cases system start engine runner generator cwd now ran h) [
      | inl (old, (k, q)) ↦ absurd (let v' = subst (λ z. (z.result) ≡ inr e) (sym q) v in cc)
      | inr (x, (k, (m, q))) ↦
          let v' = subst (λ z. (z.result) ≡ inr e) (sym q) v in
          subst (λ z. (z.runner) ≡ runner) q (store-error (x.effects) (x.outcome) e v')
    ]
