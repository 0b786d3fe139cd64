-- ===== src/Daemon/Salvage.antt =====
-- crates/daemon/src/lib.rs: which id is salvaged from a line that is no request.
use autosuggest_core.Base.{
  ◌⊎◌, ℕ, ◌+◌, ◌-◌, ◌*◌, ◌^◌, ◌<◌, ◌≤◌, ◌≡◌, ◌≢◌, refl, ap, true, [], ◌∷◌, ◌++◌, none, some, ◌==◌,
  length, inl, inr, arith, Bool-cases, Option-cases, All,
}
use autosuggest_core.Base.Int.{ℤ, neg}
use autosuggest_core.Text.{Text, codes, strip_prefix, split_once, is_whitespace}

-- `text` is `before`, the first occurrence of the pattern, and `after`.
abbrev pub IsFirst : Text → Text → Text → Text → Type 0
IsFirst pattern before after text =
    (text ≡ before ++ (pattern ++ after))
    × ((b a : Text) → text ≡ b ++ (pattern ++ a) → length before ≤ length b)

abbrev pub IsAbsent : Text → Text → Type 0
IsAbsent pattern text = (b a : Text) → text ≢ b ++ (pattern ++ a)

abbrev pub IsDigit : ℕ → Type 0
IsDigit c = (48 ≤ c) × (c ≤ 57)

abbrev pub BeginsWith : (ℕ → Type 0) → Text → Type 0
BeginsWith p [] = ⊥
BeginsWith p (c ∷ cs) = p c

-- What the digits denote.
abbrev pub decimal : ℕ → Text → ℕ
decimal higher [] = higher
decimal higher (c ∷ cs) = decimal (10 * higher + (c - 48)) cs

-- The digits, one at least, are all those at the start of the text.
abbrev pub IsNumeral : Text → Text → Text → Type 0
IsNumeral digits rest text =
    (text ≡ digits ++ rest) × ((digits ≢ []) × (All IsDigit digits × ¬ BeginsWith IsDigit rest))

-- The `i64` that the text begins with, or -1 if it begins with none.
pub data Reads (text : Text) : ℤ → Type 0 where
  positive :
      (digits rest : Text)
      → IsNumeral digits rest text
      → decimal 0 digits < 2 ^ 63
      → Reads text (ℤ.pos (decimal 0 digits))
  negative :
      (value digits rest : Text)
      → text ≡ b'-' ∷ value
      → IsNumeral digits rest value
      → decimal 0 digits ≤ 2 ^ 63
      → Reads text (neg (decimal 0 digits))
  too_large :
      (digits rest : Text)
      → IsNumeral digits rest text
      → 2 ^ 63 ≤ decimal 0 digits
      → Reads text (ℤ.negsuc 0)
  too_small :
      (value digits rest : Text)
      → text ≡ b'-' ∷ value
      → IsNumeral digits rest value
      → 2 ^ 63 < decimal 0 digits
      → Reads text (ℤ.negsuc 0)
  no_number :
      ¬ BeginsWith IsDigit text
      → ((value : Text) → text ≡ b'-' ∷ value → ¬ BeginsWith IsDigit value)
      → Reads text (ℤ.negsuc 0)

-- The id of a line, by the number behind its first key "id" and the first colon behind that.
pub data Salvages (line : Text) : ℤ → Type 0 where
  no_key : IsAbsent (codes "\"id\"") line → Salvages line (ℤ.negsuc 0)
  no_colon :
      (before after : Text)
      → IsFirst (codes "\"id\"") before after line
      → IsAbsent (codes ":") after
      → Salvages line (ℤ.negsuc 0)
  found :
      {id : ℤ} (before after between value blank text : Text)
      → IsFirst (codes "\"id\"") before after line
      → IsFirst (codes ":") between value after
      → value ≡ blank ++ text
      → All (λ c. is_whitespace c ≡ true) blank
      → ¬ BeginsWith (λ c. is_whitespace c ≡ true) text
      → Reads text id
      → Salvages line id

-- The rest behind a prefix.
strip_prefix-some :
    (text pattern rest : Text) → strip_prefix text pattern ≡ some rest → text ≡ pattern ++ rest
unfolding strip_prefix
strip_prefix-some text [] rest h = cc
strip_prefix-some [] (p ∷ ps) rest h = absurd (cc)
strip_prefix-some (c ∷ cs) (p ∷ ps) rest h = elim (Bool-cases (c == p)) [
  | inl e ↦
      let q : c ≡ p = ground (arith, e) in
      let r = strip_prefix-some cs ps rest (rw e at h) in rw (q, r) refl
  | inr e ↦ absurd (let h' = rw e at h in cc)
]

strip_prefix-append : (pattern rest : Text) → strip_prefix (pattern ++ rest) pattern ≡ some rest
unfolding strip_prefix
strip_prefix-append [] rest = refl
strip_prefix-append (p ∷ ps) rest = ground (arith, strip_prefix-append ps rest)

strip_prefix-none : (text pattern a : Text) → strip_prefix text pattern ≡ none → text ≢ pattern ++ a
strip_prefix-none text pattern a h e =
    let k = strip_prefix-append pattern a in let h' = rw e at h in absurd (cc)

IsFirst-cons :
    (c : ℕ) (pattern before after text : Text)
    → strip_prefix (c ∷ text) pattern ≡ none
    → IsFirst pattern before after text
    → IsFirst pattern (c ∷ before) after (c ∷ text)
IsFirst-cons c pattern before after text n (e, f) = (
  ap (◌∷◌ c) e,
  λ b a q.
      (elim b as (λ b. c ∷ text ≡ b ++ (pattern ++ a) → length (c ∷ before) ≤ length b) [
        | [] ↦ λ q. absurd (strip_prefix-none (c ∷ text) pattern a n q)
        | d ∷ ds ↦
            λ q. (let k : text ≡ ds ++ (pattern ++ a) = cc in let g = f ds a k in omega (arith, g))
      ])
        q,
)

IsAbsent-cons :
    (c : ℕ) (pattern text : Text)
    → strip_prefix (c ∷ text) pattern ≡ none
    → IsAbsent pattern text
    → IsAbsent pattern (c ∷ text)
IsAbsent-cons c pattern text n f [] a q = strip_prefix-none (c ∷ text) pattern a n q
IsAbsent-cons c pattern text n f (d ∷ ds) a q = let k : text ≡ ds ++ (pattern ++ a) = cc in f ds a k

abbrev pub Splits : Text → Text → Type 0
Splits text pattern =
    ((split_once text pattern ≡ none) × IsAbsent pattern text)
    ⊎ ((before after : Text) × ((split_once text pattern ≡ some (before, after))
          × IsFirst pattern before after text))

split_at_once :
    (text pattern rest : Text)
    → strip_prefix text pattern ≡ some rest
    → split_once text pattern ≡ some ([], rest)
    → Splits text pattern
split_at_once text pattern rest e s =
    inr ([], rest, (s, (strip_prefix-some text pattern rest e, λ b a q. omega arith)))

-- What `split_once` finds is the first occurrence.
pub split_once-Splits : (text pattern : Text) → Splits text pattern
unfolding split_once
split_once-Splits [] pattern = elim (Option-cases (strip_prefix [] pattern)) [
  | inr (rest, e) ↦ split_at_once [] pattern rest e (rw (split_once, e) refl)
  | inl e ↦ inl (
    rw (split_once, e) refl,
    λ b a q.
        (elim b as (λ b. [] ≡ b ++ (pattern ++ a) → ⊥) [
          | [] ↦ λ q. strip_prefix-none [] pattern a e q
          | d ∷ ds ↦ λ q. absurd (cc)
        ])
          q,
  )
]
split_once-Splits (c ∷ cs) pattern = elim (Option-cases (strip_prefix (c ∷ cs) pattern)) [
  | inr (rest, e) ↦ split_at_once (c ∷ cs) pattern rest e (rw (split_once, e) refl)
  | inl e ↦ elim (split_once-Splits cs pattern) [
    | inl (s, f) ↦ inl (rw (split_once, e, s) refl, IsAbsent-cons c pattern cs e f)
    | inr (before, after, (s, f)) ↦ inr (
      c ∷ before,
      after,
      (rw (split_once, e, s) refl, IsFirst-cons c pattern before after cs e f),
    )
  ]
]
