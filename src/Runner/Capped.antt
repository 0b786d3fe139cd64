-- ===== src/Runner/Capped.antt =====
-- crates/data/src/runner.rs: the cap on the output, and what it bounds.
use autosuggest_core.Base.{
  ◌>>=◌, ◌≡◌, refl, sym, subst, ℕ, zero, suc, ◌+◌, ◌-◌, ◌≤◌, true, List, [], ◌∷◌, none, some, ◌⊎◌,
  inl, inr, arith, length, take, length-take, Bool-cases, is_empty, unwrap_or, length-filter_map,
}
use autosuggest_core.Text.{Text, starts_with}
use autosuggest_core.Spec.{Generator}
use autosuggest_core.Output.{
  suggestion_of, Captures, parse_output, pieces_of, split, split_from, onto_first, default_split_on,
}
use autosuggest_core.Complete.{GeneratorError}
use autosuggest_core.Runner.{
  Child, SandboxedRunner, ProcessCommand, Effect, Execution, Ran, run, cached, store, execute,
  collect_output, captured,
}
use autosuggest_core.Runner.Courses.{Course, execute-Course, run-cases}
use autosuggest_core.Runner.Policy.{System}
use autosuggest_core.Runner.Poll.{Waited}
use autosuggest_core.Text.Utf8.{from_utf8_lossy, length-from_utf8_lossy}

length-onto_first : (c : ℕ) (ts : List Text) → length (onto_first c ts) ≤ suc (length ts - 1)
length-onto_first c [] = omega arith
length-onto_first c (t ∷ ts) = omega arith

length-split_from :
    (separator : Text) (skip : ℕ) (text : Text)
    → length (split_from separator skip text) ≤ length text + 1
unfolding split_from
length-split_from separator skip [] = omega arith
length-split_from separator (suc skip) (c ∷ cs) = omega (arith, length-split_from separator skip cs)
length-split_from separator zero (c ∷ cs) = elim (Bool-cases (starts_with (c ∷ cs) separator)) [
  | inl e ↦
      rw (split_from, e) (omega (arith, length-split_from separator (length separator - 1) cs))
  | inr e ↦
      rw (split_from, e)
        (omega (
          arith,
          length-onto_first c (split_from separator zero cs),
          length-split_from separator zero cs,
        ))
]

length-pieces_of :
    (generator : Generator) (text : Text) → length (pieces_of generator text) ≤ length text + 1
unfolding pieces_of split
length-pieces_of generator text =
    elim (Bool-cases (is_empty (unwrap_or generator.split_on default_split_on))) [
      | inl e ↦ rw e (omega arith)
      | inr e ↦ rw e (length-split_from (unwrap_or generator.split_on default_split_on) zero text)
    ]

module _ (system : System) (start : ProcessCommand system → Child ⊎ Text) where
  module _ (runner : SandboxedRunner system) (child : Child) (bytes : List ℕ) (text : Text) where
    length-captured :
        (waited : Waited)
        → captured system runner bytes waited ≡ inl text
        → length text ≤ runner.max_output_bytes
    unfolding captured
    length-captured Waited.overrun h = absurd (cc)
    length-captured (Waited.wait_error e) h = absurd (cc)
    length-captured Waited.exit h =
        let q : from_utf8_lossy (take (runner.max_output_bytes) bytes) ≡ text = cc in
        subst (λ t. length t ≤ runner.max_output_bytes) q
          (omega (
            arith,
            length-from_utf8_lossy (take (runner.max_output_bytes) bytes),
            length-take (runner.max_output_bytes) bytes,
          ))

    length-collect_output :
        (waited : Waited)
        → collect_output system runner child bytes waited ≡ some (inl text)
        → length text ≤ runner.max_output_bytes
    unfolding collect_output
    length-collect_output waited h = elim (Bool-cases child.is_drained) [
      | inr n ↦ absurd (let h' = rw (collect_output, n) at h in cc)
      | inl d ↦ (let q = rw (collect_output, d) at h in length-captured waited (cc))
    ]

  -- The text that an execution captures has no more characters than the runner's cap has bytes.
  length-execute :
      (runner : SandboxedRunner system) (generator : Generator) (cwd : Text)
      (execution : Execution system) (text : Text)
      → execute system start runner generator cwd ≡ some execution
      → execution.outcome ≡ inl text
      → length text ≤ runner.max_output_bytes
  length-execute runner generator cwd execution text h v =
      elim (execute-Course system start runner generator cwd execution h) [
        | Course.refusal e o q ↦ absurd (cc)
        | Course.no_start command t e is k o q ↦ absurd (cc)
        | Course.no_pipe command other e is k n o q ↦ absurd (cc)
        | Course.waiting command child bytes waited is k n w o q ↦
            length-collect_output runner child bytes text waited (rw v at o)
      ]

  module _ (engine : Captures) (runner : SandboxedRunner system) (generator : Generator)
      (cwd : Text) (now : ℕ) where
    length-store :
        (effects : List (Effect system)) (o : Text ⊎ GeneratorError) (values : List Text)
        → ((text : Text) → o ≡ inl text → length text ≤ runner.max_output_bytes)
        → (store system start engine runner generator cwd now effects o).result ≡ inl values
        → length values ≤ runner.max_output_bytes + 1
    unfolding store parse_output
    length-store effects (inr e) values b h = absurd (cc)
    length-store effects (inl text) values b h =
        let q : parse_output engine generator text ≡ values = cc in
        let n =
          length-filter_map
            (suggestion_of engine (unwrap_or generator.trim true)
              (generator.extract >>= engine.build))
            (pieces_of generator text) in
        subst (λ vs. length vs ≤ runner.max_output_bytes + 1) q
          (omega (arith, n, length-pieces_of generator text, b text refl))

    -- A call that is not answered from the cache returns at most one value more than the cap of its
    -- runner has bytes.
    pub length-run :
        (ran : Ran system) (values : List Text)
        → cached system runner generator cwd now ≡ none
        → run system start engine runner generator cwd now ≡ some ran
        → ran.result ≡ inl values
        → length values ≤ runner.max_output_bytes + 1
    length-run ran values n h v =
        elim (run-cases system start engine runner generator cwd now ran h) [
          | inl (old, (e, q)) ↦ absurd (let e' = rw n at e in cc)
          | inr (x, (e, (k, q))) ↦
              length-store (x.effects) (x.outcome) values
                (λ text o. length-execute runner generator cwd x text k o)
                (subst (λ z. (z.result) ≡ inl values) (sym q) v)
        ]
