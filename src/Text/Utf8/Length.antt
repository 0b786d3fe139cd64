-- ===== src/Text/Utf8/Length.antt =====
-- A text that is read strictly from UTF-8 is as long in bytes as what it was read from.
use autosuggest_core.Base.{
  true, Option-cases, sym, some, ◌||◌, ◌≡◌, refl, ℕ, zero, suc, ◌+◌, ◌-◌, ◌*◌, Bool, ◌&&◌, List, [],
  ◌∷◌, ◌++◌, ltb, leb, ◌==◌, if◌then◌else◌, length, Bool-cases, inl, inr, arith,
}
use autosuggest_core.Text.{Text, len}
use autosuggest_core.Text.Laws.{len-append}
use autosuggest_core.Text.Utf8.{
  Decoder, lead, go_on, decode_byte, continues, decode_strict, from_utf8,
}

-- The states that a valid text passes through: the bounds of the scalar value so far, and those that
-- keep it out of the shorter encodings and within Unicode.
unfoldable fits : Decoder → Bool
fits Decoder.between = true
fits (Decoder.inside zero low high s) = leb 0x80 low && leb high 0xBF && leb 2 s && leb s 17407
fits (Decoder.inside (suc zero) low high s) =
    leb 0x80 low && leb high 0xBF && leb s 271 && (leb 1 s || leb 0xA0 low)
fits (Decoder.inside (suc (suc n)) low high s) =
    n == 0
    && leb 0x80 low
    && leb high 0xBF
    && leb s 4
    && (leb 1 s || leb 0x90 low)
    && (leb s 3 || leb high 0x8F)

-- How many bytes of the character have been read.
unfoldable consumed : Decoder → ℕ
consumed Decoder.between = 0
consumed (Decoder.inside zero low high s) = if ltb s 32 then 1 else if ltb s 1024 then 2 else 3
consumed (Decoder.inside (suc zero) low high s) = if ltb s 16 then 1 else 2
consumed (Decoder.inside (suc (suc n)) low high s) = 1

module _ (b : ℕ) where
  lead-fits : continues Decoder.between b ≡ true → fits (lead b).1 ≡ true
  unfolding lead continues fits
  lead-fits h = ground arith

  lead-consumed : continues Decoder.between b ≡ true → len (lead b).0 + consumed (lead b).1 ≡ 1
  unfolding lead continues consumed len
  lead-consumed h = ground arith

  go_on-fits :
      (missing low high s : ℕ)
      → fits (Decoder.inside missing low high s) ≡ true
      → continues (Decoder.inside missing low high s) b ≡ true
      → fits (go_on missing (s * 64 + (b - 0x80))).1 ≡ true
  unfolding go_on continues fits
  go_on-fits zero low high s f h = refl
  go_on-fits (suc zero) low high s f h = ground arith
  go_on-fits (suc (suc n)) low high s f h = ground arith

  go_on-consumed :
      (missing low high s : ℕ)
      → fits (Decoder.inside missing low high s) ≡ true
      → continues (Decoder.inside missing low high s) b ≡ true
      → len (go_on missing (s * 64 + (b - 0x80))).0
          + consumed (go_on missing (s * 64 + (b - 0x80))).1
        ≡ consumed (Decoder.inside missing low high s) + 1
  unfolding go_on continues fits consumed len
  go_on-consumed zero low high s f h = ground arith
  go_on-consumed (suc zero) low high s f h = ground arith
  go_on-consumed (suc (suc n)) low high s f h = ground arith

step_lem :
    (state : Decoder) (b : ℕ)
    → fits state ≡ true
    → continues state b ≡ true
    → (fits (decode_byte state b).1 ≡ true)
      × (len (decode_byte state b).0 + consumed (decode_byte state b).1 ≡ consumed state + 1)
unfolding decode_byte consumed continues
step_lem Decoder.between b f h = (lead-fits b h, lead-consumed b h)
step_lem (Decoder.inside missing low high s) b f h =
    let e : (leb low b && leb b high) ≡ true = h in
    rw e (go_on-fits b missing low high s f h, go_on-consumed b missing low high s f h)

len-decode_strict :
    (state : Decoder) (bytes : List ℕ) (text : Text)
    → fits state ≡ true
    → decode_strict state bytes ≡ some text
    → len text ≡ length bytes + consumed state
unfolding decode_strict consumed len
len-decode_strict Decoder.between [] text f h = let q : [] ≡ text = cc in rw (sym q) (omega arith)
len-decode_strict (Decoder.inside missing low high scalar) [] text f h = absurd (cc)
len-decode_strict state (b ∷ bs) text f h = elim (Bool-cases (continues state b)) [
  | inr e ↦ absurd (let h' = rw (decode_strict, e) at h in cc)
  | inl e ↦ elim (Option-cases (decode_strict (decode_byte state b).1 bs)) [
    | inl n ↦ absurd (let h' = rw (decode_strict, e, n) at h in cc)
    | inr (t, n) ↦
        let q : (decode_byte state b).0 ++ t ≡ text =
          (let h' = rw (decode_strict, e, n) at h in cc) in
        let (g, k) = step_lem state b f e in
        let i = len-decode_strict (decode_byte state b).1 bs t g n in
        rw (sym q) (omega (arith, len-append (decode_byte state b).0 t, k, i))
  ]
]

-- A text is as long in bytes as the bytes that it was read from.
pub len-from_utf8 :
    (bytes : List ℕ) (text : Text) → from_utf8 bytes ≡ some text → len text ≡ length bytes
unfolding from_utf8 fits consumed
len-from_utf8 bytes text h = omega (arith, len-decode_strict Decoder.between bytes text refl h)
