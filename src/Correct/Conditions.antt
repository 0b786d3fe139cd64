-- ===== src/Correct/Conditions.antt =====
-- crates/core/src/correct/mod.rs: the conditions of a JSON rule.
use autosuggest_core.Base.{
  any-In, In-any, is_empty, any, arith, ap, In, Bool, ◌≡◌, refl, ◌↔◌, ◌⊎◌, inl, inr, List, [], ◌∷◌,
  Option, none, some, true, false, ◌++◌, ◌||◌, sym, subst,
}
use autosuggest_core.Base.Int.{ℤ, pos, negsuc}
use autosuggest_core.Text.{Text, starts_with, contains}
use autosuggest_core.Text.Laws.{
  starts_with-append, starts_with-rest, Occurs, contains-Occurs, Occurs-contains,
}
use autosuggest_core.Correct.{matches, regex_holds, exit_code_holds, and_then, same_int, compile}
use autosuggest_core.Correct.Types.{Match, CorrectContext, Result, ok, err, RegexEngine}

-- The condition, if it is there, is satisfied.
abbrev IfPresent : Option Text → (Text → Type 0) → Type 0
IfPresent none P = Unit
IfPresent (some t) P = P t

-- The pattern compiles to a regex that accepts the text.
abbrev Accepts : RegexEngine → Text → Text → Type 0
Accepts engine text pattern =
    (regex : engine.Regex) × ((engine.build pattern ≡ inl regex)
      × (engine.is_match regex text ≡ true))

-- What the conditions of a rule ask of a failed command.
abbrev pub Satisfies : RegexEngine → Match → CorrectContext → Type 0
Satisfies engine m ctx =
    IfPresent m.script_starts_with (λ p. (rest : Text) × (ctx.script ≡ p ++ rest))
    × (IfPresent m.script_regex (Accepts engine ctx.script)
        × (((m.stderr_contains ≡ [])
              ⊎ ((part : Text) × (In part m.stderr_contains × Occurs part ctx.stderr)))
            × (IfPresent m.stderr_regex (Accepts engine ctx.stderr)
                × ((m.exit_code_in ≡ [])
                    ⊎ ((code : ℤ) × ((ctx.exit_code ≡ some code) × In code m.exit_code_in))))))

and_then-true : (a b : Result Bool) → and_then a b ≡ ok true → (a ≡ ok true) × (b ≡ ok true)
and_then-true (ok true) b h = (refl, h)
and_then-true (ok false) b h = absurd (cc)
and_then-true (err e) b h = absurd (cc)

true-and_then : (a b : Result Bool) → (a ≡ ok true) × (b ≡ ok true) → and_then a b ≡ ok true
true-and_then a b (h, k) = rw h k

same_int_lem : (a b : ℤ) → same_int a b ≡ true → b ≡ a
same_int_lem (pos m) (pos n) h = ap pos (ground arith)
same_int_lem (pos m) (negsuc n) h = absurd (cc)
same_int_lem (negsuc m) (pos n) h = absurd (cc)
same_int_lem (negsuc m) (negsuc n) h = ap negsuc (ground arith)

same_int_refl : (a : ℤ) → same_int a a ≡ true
same_int_refl (pos m) = ground arith
same_int_refl (negsuc m) = ground arith

prefix_holds :
    (script : Text) (o : Option Text)
    → (ok (elim o [ none ↦ true | some prefix ↦ starts_with script prefix ]) ≡ ok true)
      ↔ IfPresent o (λ p. (rest : Text) × (script ≡ p ++ rest))
prefix_holds script none = (λ h. tt, λ u. refl)
prefix_holds script (some p) =
    (λ h. starts_with-rest script p (cc), λ (t, q). rw q (ap ok (starts_with-append p t)))

regex_holds_iff :
    (engine : RegexEngine) (rule_id : Text) (o : Option Text) (text : Text)
    → (regex_holds engine rule_id o text ≡ ok true) ↔ IfPresent o (Accepts engine text)
unfolding regex_holds compile
regex_holds_iff engine rule_id none text = (λ h. tt, λ u. refl)
regex_holds_iff engine rule_id (some p) text =
    (λ h. step (engine.build p) refl h, λ (r, (e, k)). rw (regex_holds, compile, e, k) refl)
  where
    step :
        (b : engine.Regex ⊎ Text)
        → engine.build p ≡ b
        → regex_holds engine rule_id (some p) text ≡ ok true
        → Accepts engine text p
    step (inl r) e h = (r, (e, let k = rw (e, regex_holds, compile) at h in cc))
    step (inr x) e h = absurd (let k = rw (e, regex_holds, compile) at h in cc)

stderr_holds :
    (stderr : Text) (parts : List Text)
    → (ok (is_empty parts || any (λ part. contains stderr part) parts) ≡ ok true)
      ↔ ((parts ≡ []) ⊎ ((part : Text) × (In part parts × Occurs part stderr)))
stderr_holds stderr [] = (λ h. inl refl, λ h. refl)
stderr_holds stderr (p ∷ ps) = (
  λ h.
      let (a, m, k) = any-In (contains stderr) (p ∷ ps) (cc) in
      inr (a, (m, contains-Occurs stderr a k)),
  back,
)
  where
    back :
        (((p ∷ ps) ≡ []) ⊎ ((part : Text) × (In part (p ∷ ps) × Occurs part stderr)))
        → ok (any (λ part. contains stderr part) (p ∷ ps)) ≡ ok true
    back (inl e) = absurd (cc)
    back (inr (a, (m, o))) =
        ap ok (In-any (contains stderr) (p ∷ ps) m (Occurs-contains stderr a o))

code_holds :
    (codes : List ℤ) (code : Option ℤ)
    → (ok (exit_code_holds codes code) ≡ ok true)
      ↔ ((codes ≡ []) ⊎ ((c : ℤ) × ((code ≡ some c) × In c codes)))
unfolding exit_code_holds
code_holds [] code = (λ h. inl refl, λ h. refl)
code_holds (d ∷ ds) none = (λ h. absurd (cc), back)
  where
    back : (((d ∷ ds) ≡ []) ⊎ ((c : ℤ) × ((none ≡ some c) × In c (d ∷ ds)))) → ok false ≡ ok true
    back (inl e) = absurd (cc)
    back (inr (c, (e, m))) = absurd (cc)
code_holds (d ∷ ds) (some code) = (
  λ h.
      let (a, m, k) = any-In (same_int code) (d ∷ ds) (cc) in
      inr (a, (ap some (sym (same_int_lem code a k)), m)),
  back,
)
  where
    back :
        (((d ∷ ds) ≡ []) ⊎ ((c : ℤ) × ((some code ≡ some c) × In c (d ∷ ds))))
        → ok (any (same_int code) (d ∷ ds)) ≡ ok true
    back (inl e) = absurd (cc)
    back (inr (c, (e, m))) =
        let q : code ≡ c = cc in
        ap ok (
          In-any (same_int code) (d ∷ ds) m
            (subst (λ x. same_int code x ≡ true) q (same_int_refl code)))

-- The conditions of a rule hold exactly when each one that is present is satisfied: the script starts
-- with the prefix, each regex compiles and accepts its text, one of the parts occurs in stderr, and
-- the exit code is known and listed.
pub matches-Satisfies :
    (engine : RegexEngine) (rule_id : Text) (m : Match) (ctx : CorrectContext)
    → (matches engine rule_id m ctx ≡ ok true) ↔ Satisfies engine m ctx
unfolding matches
matches-Satisfies engine rule_id m ctx =
    let a = prefix_holds ctx.script m.script_starts_with in
    let b = regex_holds_iff engine rule_id m.script_regex ctx.script in
    let c = stderr_holds ctx.stderr m.stderr_contains in
    let d = regex_holds_iff engine rule_id m.stderr_regex ctx.stderr in
    let e = code_holds m.exit_code_in ctx.exit_code in
    (
      λ h.
          let (h1, k1) = and_then-true _ _ h in
          let (h2, k2) = and_then-true _ _ k1 in
          let (h3, k3) = and_then-true _ _ k2 in
          let (h4, k4) = and_then-true _ _ k3 in (a.0 h1, (b.0 h2, (c.0 h3, (d.0 h4, e.0 k4)))),
      λ (u, (v, (w, (x, y)))). true-and_then _ _ (
        a.1 u,
        true-and_then _ _ (b.1 v, true-and_then _ _ (c.1 w, true-and_then _ _ (d.1 x, e.1 y))),
      ),
    )
