-- ===== src/Daemon/Lines.antt =====
-- crates/daemon/src/main.rs: what the loop does with the lines of its input.
use autosuggest_core.Base.{
  some_of, ◌≡◌, refl, ℕ, zero, suc, ◌+◌, ◌≤◌, ◌<◌, ◌==◌, true, false, List, [], ◌∷◌, ◌++◌, some,
  is_some, ltb, is_empty, length, any, Bool-cases, Option-cases, inl, inr, arith,
}
use autosuggest_core.Text.{Text, len, is_char_boundary}
use autosuggest_core.Text.Utf8.{from_utf8}
use autosuggest_core.Output.{trim}
use autosuggest_core.Daemon.Stdin.{
  read_until, drain_oversized_line, pop_char, strip_newline, Turn, Served, turn, turn_on, serve,
  answer_line, answer_oversized,
}

-- No byte of it is a line break.
abbrev pub IsOneLine : List ℕ → Type 0
IsOneLine bytes = any (λ b. b == b'\n') bytes ≡ false

pub read_until-line :
    (limit : ℕ) (bytes rest : List ℕ)
    → IsOneLine bytes
    → length bytes < limit
    → read_until limit (bytes ++ b'\n' ∷ rest) ≡ (bytes ++ b'\n' ∷ [], rest)
unfolding read_until
read_until-line zero bytes rest h l = absurd (omega (arith, l))
read_until-line (suc limit) [] rest h l = refl
read_until-line (suc limit) (b ∷ bs) rest h l = elim (Bool-cases (b == b'\n')) [
  | inl e ↦ absurd (let h' = rw e at h in cc)
  | inr e ↦ rw (read_until, e, read_until-line limit bs rest (rw e at h) (omega (arith, l))) refl
]

length-read_until :
    (limit : ℕ) (input : List ℕ)
    → length (read_until limit input).0 + length (read_until limit input).1 ≡ length input
unfolding read_until
length-read_until zero input = omega arith
length-read_until (suc limit) [] = omega arith
length-read_until (suc limit) (b ∷ bs) = elim (Bool-cases (b == b'\n')) [
  | inl e ↦ rw (read_until, e) (omega arith)
  | inr e ↦ rw (read_until, e) (omega (arith, length-read_until limit bs))
]

length-drain : (input : List ℕ) → length (drain_oversized_line input) ≤ length input
unfolding drain_oversized_line
length-drain [] = omega arith
length-drain (b ∷ bs) = elim (Bool-cases (b == b'\n')) [
  | inl e ↦ rw (drain_oversized_line, e) (omega arith)
  | inr e ↦ rw (drain_oversized_line, e) (omega (arith, length-drain bs))
]

pub pop_char-append : (c : ℕ) (line : Text) → pop_char c (line ++ c ∷ []) ≡ (true, line)
unfolding pop_char
pop_char-append c [] = let e : (c == c) ≡ true = ground arith in rw e refl
pop_char-append c (d ∷ []) = rw (pop_char-append c []) refl
pop_char-append c (d ∷ e ∷ ds) = rw (pop_char-append c (e ∷ ds)) refl

length-nonempty : (bytes : List ℕ) → is_empty bytes ≡ false → 0 < length bytes
length-nonempty [] h = absurd (cc)
length-nonempty (b ∷ bs) h = omega arith

module _ (limit : ℕ) (handle : Text → Text) where
  -- The rest that a turn leaves, if the loop goes on.
  abbrev Leaves : ℕ → Turn → Type 0
  Leaves n (Turn.skipped rest) = length rest < n
  Leaves n (Turn.answered response rest) = length rest < n
  Leaves n _ = Unit

  answer_line-Leaves :
      (n : ℕ) (line : Text) (rest : List ℕ)
      → length rest < n
      → Leaves n (answer_line limit handle line rest)
  unfolding answer_line answer_oversized
  answer_line-Leaves n line rest h = elim (Bool-cases (is_empty (trim line))) [
    | inl e ↦ rw (answer_line, e) h
    | inr e ↦ elim (Bool-cases (ltb limit (len line))) [
      | inr l ↦ rw (answer_line, e, l) h
      | inl l ↦ elim (Bool-cases (is_char_boundary line (limit + 1))) [
        | inl b ↦ rw (answer_line, e, l, answer_oversized, b) (omega (arith, h, length-drain rest))
        | inr b ↦ rw (answer_line, e, l, answer_oversized, b) tt
      ]
    ]
  ]

  turn-Leaves : (input : List ℕ) → Leaves (length input) (turn limit handle input)
  unfolding turn
  turn-Leaves input = elim (Bool-cases (is_empty (read_until (limit + 2) input).0)) [
    | inl e ↦ rw (turn, turn_on, e) tt
    | inr e ↦
        let h : length (read_until (limit + 2) input).1 < length input = omega (
          arith,
          length-read_until (limit + 2) input,
          length-nonempty (read_until (limit + 2) input).0 e,
        ) in
        elim (Option-cases (from_utf8 (read_until (limit + 2) input).0)) [
          | inl n ↦ rw (turn, turn_on, e, n) tt
          | inr (line, n) ↦
              rw (turn, turn_on, e, n)
                (answer_line-Leaves (length input) (strip_newline line)
                  (read_until (limit + 2) input).1 h)
        ]
  ]

  round_lem :
      (fuel : ℕ) (input : List ℕ) (t : Turn)
      → turn limit handle input ≡ t
      → Leaves (length input) t
      → ((rest : List ℕ)
          → length rest < length input
          → is_some (serve limit handle fuel rest) ≡ true)
      → is_some (serve limit handle (suc fuel) input) ≡ true
  unfolding serve
  round_lem fuel input Turn.end_of_input e l next = rw (serve, e) refl
  round_lem fuel input Turn.invalid_data e l next = rw (serve, e) refl
  round_lem fuel input Turn.panicked e l next = rw (serve, e) refl
  round_lem fuel input (Turn.skipped rest) e l next = rw (serve, e) (next rest l)
  round_lem fuel input (Turn.answered response rest) e l next =
      let (served, q) = some_of (serve limit handle fuel rest) (next rest l) in
      rw (serve, e, q) refl

  serve-is_some :
      (fuel : ℕ) (input : List ℕ)
      → length input < fuel
      → is_some (serve limit handle fuel input) ≡ true
  serve-is_some zero input h = absurd (omega (arith, h))
  serve-is_some (suc fuel) input h =
      round_lem fuel input (turn limit handle input) refl (turn-Leaves input)
        (λ rest l. serve-is_some fuel rest (omega (arith, h, l)))

  -- The loop ends on every input: each round reads a byte at least, so that as many rounds as the
  -- input has bytes, and one more, are enough.
  pub serve-returns :
      (input : List ℕ)
      → (served : Served) × (serve limit handle (suc (length input)) input ≡ some served)
  serve-returns input =
      some_of (serve limit handle (suc (length input)) input)
        (serve-is_some (suc (length input)) input (omega arith))
