-- ===== src/Text/Utf8.antt =====
-- UTF-8 as the standard library reads it: `String::from_utf8_lossy`, by which the captured bytes of a
-- generator become a text (each longest beginning of a sequence that cannot go on becomes U+FFFD),
-- and the check of `BufRead::read_line`, which fails on such a sequence.
pub mod Length
use autosuggest_core.Base.{
  true, Option-cases, append_assoc, ap, sym, ◌∙◌, subst, Option, none, some, ◌||◌, ◌≡◌, refl, ℕ,
  zero, suc, ◌+◌, ◌-◌, ◌*◌, ◌≤◌, Bool, ◌&&◌, List, [], ◌∷◌, ◌++◌, ltb, leb, ◌==◌, if◌then◌else◌,
  length, length-append, Bool-cases, inl, inr, arith,
}
use autosuggest_core.Text.{Text, len, len_utf8}
use autosuggest_core.Text.Laws.{len-append}

-- Where the decoder stands: between two characters, or with `missing` + 1 bytes of one to come, of
-- which the next lies between `low` and `high`.
pub data Decoder : Type 0 where
  between : Decoder
  inside : (missing low high scalar : ℕ) → Decoder

abbrev replacement : ℕ
replacement = 0xFFFD

-- The byte that begins a character: what it yields, and where the decoder stands behind it.
unfoldable lead : ℕ → Text × Decoder
lead b =
    if ltb b 0x80
    then (b ∷ [], Decoder.between)
    else if ltb b 0xC2
    then (replacement ∷ [], Decoder.between)
    else if ltb b 0xE0
    then ([], Decoder.inside 0 0x80 0xBF (b - 0xC0))
    else if ltb b 0xF0
    then (
      [],
      Decoder.inside 1 (if b == 0xE0 then 0xA0 else 0x80) (if b == 0xED then 0x9F else 0xBF)
          (b - 0xE0),
    )
    else if ltb b 0xF5
    then (
      [],
      Decoder.inside 2 (if b == 0xF0 then 0x90 else 0x80) (if b == 0xF4 then 0x8F else 0xBF)
          (b - 0xF0),
    )
    else (replacement ∷ [], Decoder.between)

unfoldable go_on : ℕ → ℕ → Text × Decoder
go_on zero scalar = (scalar ∷ [], Decoder.between)
go_on (suc missing) scalar = ([], Decoder.inside missing 0x80 0xBF scalar)

unfoldable decode_byte : Decoder → ℕ → Text × Decoder
unfolding lead go_on
decode_byte Decoder.between b = lead b
decode_byte (Decoder.inside missing low high scalar) b =
    if leb low b && leb b high
    then go_on missing (scalar * 64 + (b - 0x80))
    else (replacement ∷ (lead b).0, (lead b).1)

unfoldable decode : Decoder → List ℕ → Text
unfolding decode_byte
decode Decoder.between [] = []
decode (Decoder.inside missing low high scalar) [] = replacement ∷ []
decode state (b ∷ bs) = let (text, next) = decode_byte state b in text ++ decode next bs

unfoldable pub from_utf8_lossy : List ℕ → Text
unfolding decode
from_utf8_lossy bytes = decode Decoder.between bytes

-- The replacement that an unfinished character still owes.
abbrev owed : Decoder → ℕ
owed Decoder.between = 0
owed (Decoder.inside missing low high scalar) = 1

module _ (b : ℕ) where
  lead-owed : length (lead b).0 + owed (lead b).1 ≡ 1
  unfolding lead
  lead-owed = ground arith

  go_on-owed :
      (missing scalar : ℕ) → length (go_on missing scalar).0 + owed (go_on missing scalar).1 ≡ 1
  unfolding go_on
  go_on-owed zero scalar = refl
  go_on-owed (suc missing) scalar = refl

  decode_byte-owed :
      (state : Decoder)
      → length (decode_byte state b).0 + owed (decode_byte state b).1 ≤ owed state + 1
  unfolding decode_byte
  decode_byte-owed Decoder.between = omega (arith, lead-owed)
  decode_byte-owed (Decoder.inside missing low high scalar) =
      elim (Bool-cases (leb low b && leb b high)) [
        | inl e ↦ rw e (omega (arith, go_on-owed missing (scalar * 64 + (b - 0x80))))
        | inr e ↦ rw e (omega (arith, lead-owed))
      ]

length-decode :
    (state : Decoder) (bytes : List ℕ) → length (decode state bytes) ≤ length bytes + owed state
unfolding decode
length-decode Decoder.between [] = omega arith
length-decode (Decoder.inside missing low high scalar) [] = omega arith
length-decode state (b ∷ bs) = omega (
  arith,
  length-append (decode_byte state b).0 (decode (decode_byte state b).1 bs),
  decode_byte-owed b state,
  length-decode (decode_byte state b).1 bs,
)

pub length-from_utf8_lossy : (bytes : List ℕ) → length (from_utf8_lossy bytes) ≤ length bytes
unfolding from_utf8_lossy
length-from_utf8_lossy bytes = omega (arith, length-decode Decoder.between bytes)

-- Whether `b` may come where the decoder stands.
unfoldable continues : Decoder → ℕ → Bool
continues Decoder.between b = ltb b 0x80 || (leb 0xC2 b && ltb b 0xF5)
continues (Decoder.inside missing low high scalar) b = leb low b && leb b high

unfoldable decode_strict : Decoder → List ℕ → Option Text
unfolding decode_byte continues
decode_strict Decoder.between [] = some []
decode_strict (Decoder.inside missing low high scalar) [] = none
decode_strict state (b ∷ bs) =
    let (text, next) = decode_byte state b in
    let rest = decode_strict next bs in
    if continues state b then (elim rest [ none ↦ none | some t ↦ some (text ++ t) ]) else none

unfoldable pub from_utf8 : List ℕ → Option Text
unfolding decode_strict
from_utf8 bytes = decode_strict Decoder.between bytes

-- A line break behind a valid text is read as it stands.
decode_strict-newline :
    (state : Decoder) (bytes : List ℕ) (text : Text)
    → decode_strict state bytes ≡ some text
    → decode_strict state (bytes ++ b'\n' ∷ []) ≡ some (text ++ b'\n' ∷ [])
unfolding decode_strict
decode_strict-newline Decoder.between [] text h =
    let q : [] ≡ text = cc in subst (λ t. some (b'\n' ∷ []) ≡ some (t ++ b'\n' ∷ [])) q refl
decode_strict-newline (Decoder.inside missing low high scalar) [] text h = absurd (cc)
decode_strict-newline state (b ∷ bs) text h = elim (Bool-cases (continues state b)) [
  | inr e ↦ absurd (let h' = rw (decode_strict, e) at h in cc)
  | inl e ↦ elim (Option-cases (decode_strict (decode_byte state b).1 bs)) [
    | inl n ↦ absurd (let h' = rw (decode_strict, e, n) at h in cc)
    | inr (t, n) ↦
        let q : (decode_byte state b).0 ++ t ≡ text =
          (let h' = rw (decode_strict, e, n) at h in cc) in
        let k = decode_strict-newline (decode_byte state b).1 bs t n in
        rw (decode_strict, e, k)
          (ap (λ x. some x)
            (sym (append_assoc (decode_byte state b).0 t (b'\n' ∷ []))
              ∙ ap (λ x. x ++ b'\n' ∷ []) q))
  ]
]

pub from_utf8-newline :
    (bytes : List ℕ) (text : Text)
    → from_utf8 bytes ≡ some text
    → from_utf8 (bytes ++ b'\n' ∷ []) ≡ some (text ++ b'\n' ∷ [])
unfolding from_utf8
from_utf8-newline bytes text h = decode_strict-newline Decoder.between bytes text h
