-- ===== src/Daemon/Indexed.antt =====
-- crates/daemon/src/lib.rs: the spec that a name leads to.
use autosuggest_core.Base.{
  ◌≡◌, refl, sym, ap, ◌∙◌, subst, ℕ, suc, Bool, true, false, List, [], ◌∷◌, ◌++◌, Option, none,
  some, any, find, get_elem?, length, if◌then◌else◌, Bool-cases, inl, inr, arith, append_assoc,
  ◌>>=◌, length-append,
}
use autosuggest_core.Text.{Text, text_eq}
use autosuggest_core.Text.Laws.{eq_of_text_eq}
use autosuggest_core.Spec.{Subcommand, command, all_names, has_name}
use autosuggest_core.Correct.Types.{Rule, CommandResolver}
use autosuggest_core.Complete.{GeneratorRunner}
use autosuggest_core.Daemon.{
  index_of, or_insert, index_names, index_from, index_specs, spec_for, with_runner,
}

-- The first answer, if there is one, else the second.
abbrev or_else {ℓ} : {A : Type ℓ} → Option A → Option A → Option A
or_else none b = b
or_else (some a) b = some a

or_else_assoc {ℓ} :
    {A : Type ℓ} (a b c : Option A) → or_else (or_else a b) c ≡ or_else a (or_else b c)
or_else_assoc none b c = refl
or_else_assoc (some x) b c = refl

or_else-none {ℓ} : {A : Type ℓ} (a : Option A) → or_else a none ≡ a
or_else-none none = refl
or_else-none (some x) = refl

or_else-if :
    (b : Bool) (i : ℕ) (o : Option ℕ)
    → or_else (if b then some i else none) o ≡ (if b then some i else o)
or_else-if true i o = refl
or_else-if false i o = refl

get_elem?-middle {ℓ} :
    {A : Type ℓ} (before : List A) (x : A) (after : List A)
    → get_elem? (before ++ x ∷ after) (length before) ≡ some x
get_elem?-middle [] x after = refl
get_elem?-middle (b ∷ before) x after = get_elem?-middle before x after

abbrev names : Subcommand → Text → Bool
names spec name = has_name (command spec).name name

abbrev first_from : ℕ → List Subcommand → Text → Option ℕ
first_from i [] name = none
first_from i (spec ∷ specs) name = if names spec name then some i else first_from (suc i) specs name

module _ (name : Text) where
  index_of-or_insert :
      (index : List (Text × ℕ)) (n : Text) (i : ℕ)
      → index_of (or_insert index n i) name
        ≡ or_else (index_of index name) (if text_eq n name then some i else none)
  unfolding index_of or_insert
  index_of-or_insert [] n i = refl
  index_of-or_insert ((m, j) ∷ index) n i = elim (Bool-cases (text_eq m n)) [
    | inl e ↦ elim (Bool-cases (text_eq m name)) [
      | inl k ↦ rw (e, index_of, k) refl
      | inr k ↦
          let k' = rw (eq_of_text_eq m n e) at k in
          rw (e, index_of, k, k') (sym (or_else-none (index_of index name)))
    ]
    | inr e ↦ elim (Bool-cases (text_eq m name)) [
      | inl k ↦ rw (e, index_of, k) refl
      | inr k ↦ rw (e, index_of, k) (index_of-or_insert index n i)
    ]
  ]

  if-or_else :
      (a b : Bool) (i : ℕ)
      → or_else (if a then some i else none) (if b then some i else none)
        ≡ (if (if a then true else b) then some i else none)
  if-or_else true b i = refl
  if-or_else false b i = refl

  index_of-index_names :
      (index : List (Text × ℕ)) (ns : List Text) (i : ℕ)
      → index_of (index_names index ns i) name
        ≡ or_else (index_of index name) (if any (λ n. text_eq n name) ns then some i else none)
  unfolding index_names
  index_of-index_names index [] i = sym (or_else-none (index_of index name))
  index_of-index_names index (n ∷ ns) i =
      index_of-index_names (or_insert index n i) ns i
      ∙ ap (λ z. or_else z (if any (λ n. text_eq n name) ns then some i else none))
          (index_of-or_insert index n i)
      ∙ or_else_assoc (index_of index name) _ _
      ∙ ap (λ z. or_else (index_of index name) z)
          (if-or_else (text_eq n name) (any (λ n. text_eq n name) ns) i)

  index_of-index_from :
      (index : List (Text × ℕ)) (i : ℕ) (specs : List Subcommand)
      → index_of (index_from index i specs) name
        ≡ or_else (index_of index name) (first_from i specs name)
  unfolding index_from has_name
  index_of-index_from index i [] = sym (or_else-none (index_of index name))
  index_of-index_from index i (spec ∷ specs) =
      index_of-index_from (index_names index (all_names (command spec).name) i) (suc i) specs
      ∙ ap (λ z. or_else z (first_from (suc i) specs name))
          (index_of-index_names index (all_names (command spec).name) i)
      ∙ or_else_assoc (index_of index name) _ _
      ∙ ap (λ z. or_else (index_of index name) z)
          (or_else-if (names spec name) i (first_from (suc i) specs name))

  first_from-find :
      (before specs : List Subcommand)
      → (first_from (length before) specs name >>= get_elem? (before ++ specs))
        ≡ find (λ s. names s name) specs
  first_from-find before [] = refl
  first_from-find before (spec ∷ specs) = elim (Bool-cases (names spec name)) [
    | inl e ↦ rw e (get_elem?-middle before spec specs)
    | inr e ↦
        let h = first_from-find (before ++ spec ∷ []) specs in
        let n : length (before ++ spec ∷ []) ≡ suc (length before) =
          omega (arith, length-append before (spec ∷ [])) in
        let h' =
          subst
            (λ k.
              (first_from k specs name >>= get_elem? ((before ++ spec ∷ []) ++ specs))
              ≡ find (λ s. names s name) specs)
            n h in
        rw e (
          subst
            (λ xs.
              (first_from (suc (length before)) specs name >>= get_elem? xs)
              ≡ find (λ s. names s name) specs)
            (append_assoc before (spec ∷ []) specs) h')
  ]

-- The spec for a name is the first of the loaded specs that has it as its name or an alias.
pub spec_for-find :
    (specs : List Subcommand) (rules : List Rule) (resolver : CommandResolver)
    (runner : GeneratorRunner) (name : Text)
    → spec_for (with_runner specs rules resolver runner) name
      ≡ find (λ s. has_name (command s).name name) specs
unfolding spec_for with_runner index_specs index_of
spec_for-find specs rules resolver runner name =
    ap (λ o. o >>= get_elem? specs) (index_of-index_from name [] 0 specs)
    ∙ first_from-find name [] specs
