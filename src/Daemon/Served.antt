-- ===== src/Daemon/Served.antt =====
-- crates/daemon/src/main.rs: the responses to an input of lines, and to a line that is too long.
use autosuggest_core.Base.{
  append-nil, ◌≡◌, refl, ap, ◌∙◌, ℕ, zero, suc, ◌+◌, ◌≤◌, ◌==◌, true, false, List, [], ◌∷◌, ◌++◌,
  some, ltb, if◌then◌else◌, is_empty, length, All, map, Bool-cases, inl, inr, arith,
}
use autosuggest_core.Text.{Text, len}
use autosuggest_core.Text.Offsets.{to_offset-len, is_char_boundary-len}
use autosuggest_core.Text.Utf8.{from_utf8, from_utf8-newline}
use autosuggest_core.Text.Utf8.Length.{len-from_utf8}
use autosuggest_core.Output.{trim}
use autosuggest_core.Daemon.Stdin.{
  read_until, drain_oversized_line, pop_char, strip_newline, Turn, Ending, Served, turn, turn_on,
  serve, answer_line, answer_oversized,
}
use autosuggest_core.Daemon.Lines.{IsOneLine, read_until-line, pop_char-append}

-- A line without its line break, and without the carriage return at its end.
abbrev pub request_of : Text → Text
request_of line = (pop_char b'\r' line).1

-- Bytes within the limit that are a text without line breaks.
abbrev pub IsLine : ℕ → List ℕ × Text → Type 0
IsLine limit (bytes, text) =
    IsOneLine bytes × ((length bytes ≤ limit) × (from_utf8 bytes ≡ some text))

-- The lines on the wire, each with its line break.
abbrev pub wire : List (List ℕ × Text) → List ℕ
wire [] = []
wire ((bytes, text) ∷ lines) = bytes ++ b'\n' ∷ wire lines

-- The requests of the lines: blank ones are none.
abbrev pub requests : List (List ℕ × Text) → List Text
requests [] = []
requests ((bytes, text) ∷ lines) =
    if is_empty (trim (request_of text)) then requests lines else request_of text ∷ requests lines

len-pop_char : (c : ℕ) (line : Text) → len (pop_char c line).1 ≤ len line
unfolding pop_char len
len-pop_char c [] = omega arith
len-pop_char c (d ∷ []) = elim (Bool-cases (d == c)) [
  | inl e ↦ rw e (omega arith)
  | inr e ↦ rw e (omega arith)
]
len-pop_char c (d ∷ e ∷ ds) = omega (arith, len-pop_char c (e ∷ ds))

is_empty-append : (bytes rest : List ℕ) (b : ℕ) → is_empty (bytes ++ b ∷ rest) ≡ false
is_empty-append [] rest b = refl
is_empty-append (c ∷ cs) rest b = refl

read_until-nil : (limit : ℕ) → read_until limit [] ≡ ([], [])
unfolding read_until
read_until-nil zero = refl
read_until-nil (suc limit) = refl

module _ (limit : ℕ) (handle : Text → Text) where
  -- The round that reads a line with its line break.
  turn-line :
      (bytes rest : List ℕ) (text : Text)
      → IsOneLine bytes
      → length bytes ≤ suc limit
      → from_utf8 bytes ≡ some text
      → turn limit handle (bytes ++ b'\n' ∷ rest) ≡ answer_line limit handle (request_of text) rest
  unfolding turn strip_newline
  turn-line bytes rest text h l u =
      ap (λ z. turn_on limit handle z) (read_until-line (limit + 2) bytes rest h (omega (arith, l)))
      ∙ rw
          (
            turn_on,
            is_empty-append bytes [] b'\n',
            from_utf8-newline bytes text u,
            strip_newline,
            pop_char-append b'\n' text,
          )
          refl

  -- What the loop answers to lines within the limit.
  abbrev pub answers : List (List ℕ × Text) → Served
  answers lines = record { responses = map handle (requests lines); ending = Ending.success }

  -- The loop answers the lines of an input, each of them a text within the limit, in their order: one
  -- response for each that is not blank, to the line without its line break and a carriage return
  -- before it, and then it ends with success.
  pub serve-wire :
      (lines : List (List ℕ × Text))
      → All (IsLine limit) lines
      → serve limit handle (suc (length lines)) (wire lines) ≡ some (answers lines)
  unfolding serve turn read_until
  serve-wire [] h = rw (serve, turn, read_until-nil (limit + 2)) refl
  serve-wire ((bytes, text) ∷ lines) (h, hs) =
      let t = turn-line bytes (wire lines) text h.0 (omega (arith, h.1.0)) h.1.1 in
      elim (Bool-cases (is_empty (trim (request_of text)))) [
        | inl e ↦ rw (serve, t, answer_line, e) (serve-wire lines hs)
        | inr e ↦
            let l : ltb limit (len (request_of text)) ≡ false =
              ground (arith, h.1.0, len-from_utf8 bytes text h.1.1, len-pop_char b'\r' text) in
            rw (serve, t, answer_line, e, l, serve-wire lines hs) refl
      ]

drain-line :
    (bytes rest : List ℕ) → IsOneLine bytes → drain_oversized_line (bytes ++ b'\n' ∷ rest) ≡ rest
unfolding drain_oversized_line
drain-line [] rest h = refl
drain-line (b ∷ bs) rest h = elim (Bool-cases (b == b'\n')) [
  | inl e ↦ absurd (let h' = rw e at h in cc)
  | inr e ↦ rw (drain_oversized_line, e) (drain-line bs rest (rw e at h))
]

-- A line that is a text, not blank and without a carriage return at its end, and one byte longer
-- than the limit, gets its response, but the line behind it gets none: the loop goes on behind that
-- line.
pub turn-lost :
    (limit : ℕ) (handle : Text → Text) (bytes next rest : List ℕ) (text : Text)
    → IsOneLine bytes
    → length bytes ≡ suc limit
    → from_utf8 bytes ≡ some text
    → request_of text ≡ text
    → is_empty (trim text) ≡ false
    → IsOneLine next
    → turn limit handle (bytes ++ b'\n' ∷ (next ++ b'\n' ∷ rest)) ≡ Turn.answered (handle text) rest
unfolding answer_line answer_oversized
turn-lost limit handle bytes next rest text h l u r t n =
    let k = len-from_utf8 bytes text u in
    let e : limit + 1 ≡ len text = omega (arith, k, l) in
    let o : ltb limit (len text) ≡ true = ground (arith, k, l) in
    let b = rw (append-nil text) at (is_char_boundary-len text []) in
    let c = rw (append-nil text) at (to_offset-len text []) in
    turn-line limit handle bytes (next ++ b'\n' ∷ rest) text h (omega (arith, l)) u
    ∙ rw (r, answer_line, t, o, answer_oversized, e, b, c, drain-line next rest n) refl
