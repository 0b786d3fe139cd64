-- ===== src/Output/Split.antt =====
-- crates/data/src/parse.rs: what `str::split` and `str::trim` do to the output.
use autosuggest_core.Output.{default_split_on, Generator, pieces_of, split, split_from, onto_first}
use autosuggest_core.Base.{
  unwrap_or, ◌≡◌, refl, ℕ, zero, suc, ◌-◌, true, false, List, [], ◌∷◌, ◌++◌, length, drop, is_empty,
  Bool-cases, inl, inr, arith,
}
use autosuggest_core.Text.{Text, starts_with, join}

-- Behind the separator a text goes on with what is left after its length.
starts_with-drop : (s p : Text) → starts_with s p ≡ true → p ++ drop (length p) s ≡ s
unfolding starts_with
starts_with-drop s [] h = refl
starts_with-drop [] (p ∷ ps) h = absurd (cc)
starts_with-drop (c ∷ cs) (p ∷ ps) h = ground (arith, starts_with-drop cs ps)

is_empty-onto_first : (c : ℕ) (ts : List Text) → is_empty (onto_first c ts) ≡ false
is_empty-onto_first c [] = refl
is_empty-onto_first c (t ∷ ts) = refl

length-nonempty : (t : Text) → is_empty t ≡ false → length t ≡ suc (length t - 1)
length-nonempty [] h = absurd (cc)
length-nonempty (c ∷ cs) h = omega arith

join_one : (separator t : Text) → join (t ∷ []) separator ≡ t
unfolding join
join_one separator t = refl

module _ (separator : Text) where
  split_from-cons : (skip : ℕ) (text : Text) → is_empty (split_from separator skip text) ≡ false
  unfolding split_from
  split_from-cons skip [] = refl
  split_from-cons (suc skip) (c ∷ cs) = split_from-cons skip cs
  split_from-cons zero (c ∷ cs) = elim (Bool-cases (starts_with (c ∷ cs) separator)) [
    | inl e ↦ rw (split_from, e) refl
    | inr e ↦ rw (split_from, e) (is_empty-onto_first c (split_from separator zero cs))
  ]

  join-cons :
      (t : Text) (ts : List Text)
      → is_empty ts ≡ false
      → join (t ∷ ts) separator ≡ t ++ (separator ++ join ts separator)
  unfolding join
  join-cons t [] h = absurd (cc)
  join-cons t (u ∷ ts) h = refl

  join-onto_first :
      (c : ℕ) (ts : List Text)
      → is_empty ts ≡ false
      → join (onto_first c ts) separator ≡ c ∷ join ts separator
  unfolding join
  join-onto_first c [] h = absurd (cc)
  join-onto_first c (t ∷ []) h = refl
  join-onto_first c (t ∷ u ∷ ts) h = refl

  join-split_from :
      is_empty separator ≡ false
      → (skip : ℕ) (text : Text) → join (split_from separator skip text) separator ≡ drop skip text
  unfolding split_from join
  join-split_from n zero [] = refl
  join-split_from n (suc skip) [] = refl
  join-split_from n (suc skip) (c ∷ cs) = join-split_from n skip cs
  join-split_from n zero (c ∷ cs) = elim (Bool-cases (starts_with (c ∷ cs) separator)) [
    | inl e ↦
        let k = starts_with-drop (c ∷ cs) separator e in
        let k' = rw (length-nonempty separator n) at k in
        rw
          (
            split_from,
            e,
            join-cons [] (split_from separator (length separator - 1) cs) (split_from-cons _ cs),
            join-split_from n (length separator - 1) cs,
          )
          k'
    | inr e ↦
        rw
          (
            split_from,
            e,
            join-onto_first c (split_from separator zero cs) (split_from-cons zero cs),
            join-split_from n zero cs,
          )
          refl
  ]

-- The pieces of an output, joined by the separator, are the output again, for every generator.
pub join-pieces_of :
    (generator : Generator) (stdout : Text)
    → join (pieces_of generator stdout) (unwrap_or generator.split_on default_split_on) ≡ stdout
unfolding pieces_of split
join-pieces_of generator stdout =
    let separator = unwrap_or generator.split_on default_split_on in
    elim (Bool-cases (is_empty separator)) [
      | inl e ↦ rw e (join_one separator stdout)
      | inr e ↦ rw e (join-split_from separator e zero stdout)
    ]
