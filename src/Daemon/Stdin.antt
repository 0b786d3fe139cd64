-- ===== src/Daemon/Stdin.antt =====
-- crates/daemon/src/main.rs: the loop that reads requests from the standard input.
-- The input is the list of its bytes up to the end; `handle` is `Engine::handle_line`. The loop for a
-- limit of `limit` bytes is modelled, so that runs of it can be tried; the program's is
-- `max_request_bytes`. Failures of the input and the output themselves are not modelled.
use autosuggest_core.Base.{
  ℕ, zero, suc, ◌+◌, Bool, true, false, List, [], ◌∷◌, Option, none, some, ltb, ◌==◌, if◌then◌else◌,
  is_empty,
}
use autosuggest_core.Text.{Text, len, to_offset, is_char_boundary}
use autosuggest_core.Text.Utf8.{from_utf8}
use autosuggest_core.Output.{trim}

-- `read_until(b'\n')` of a reader that is cut off after `limit` bytes: what is read, and what is left.
unfoldable pub read_until : ℕ → List ℕ → List ℕ × List ℕ
read_until zero input = ([], input)
read_until (suc limit) [] = ([], [])
read_until (suc limit) (b ∷ bs) =
    let (line, rest) = read_until limit bs in if b == b'\n' then (b ∷ [], bs) else (b ∷ line, rest)

-- `drain_oversized_line`: what is left behind the next line break.
unfoldable pub drain_oversized_line : List ℕ → List ℕ
drain_oversized_line [] = []
drain_oversized_line (b ∷ bs) = if b == b'\n' then bs else drain_oversized_line bs

-- `if line.ends_with(c) { line.pop() }`, with whether it does.
unfoldable pub pop_char : ℕ → Text → Bool × Text
pop_char c [] = (false, [])
pop_char c (d ∷ []) = if d == c then (true, []) else (false, d ∷ [])
pop_char c (d ∷ e ∷ ds) = let (popped, rest) = pop_char c (e ∷ ds) in (popped, d ∷ rest)

unfoldable pub strip_newline : Text → Text
unfolding pop_char
strip_newline line =
    let (popped, rest) = pop_char b'\n' line in if popped then (pop_char b'\r' rest).1 else rest

-- What a round of the loop does: it ends at the end of the input, with an error on bytes that are no
-- text, or with a panic, or it goes on with the rest of the input, with a response or without.
pub data Turn : Type 0 where
  end_of_input invalid_data panicked : Turn
  skipped : List ℕ → Turn
  answered : Text → List ℕ → Turn

pub data Ending : Type 0 where
  success io_error panic : Ending

pub record Served : Type 0 where
  pub responses : List Text
  pub ending : Ending

module _ (limit : ℕ) (handle : Text → Text) where
  -- A line that is too long is cut off behind `limit + 1` bytes: a slice of a `str`, which panics
  -- inside a character.
  unfoldable pub answer_oversized : Text → List ℕ → Turn
  unfolding drain_oversized_line is_char_boundary to_offset
  answer_oversized line rest =
      if is_char_boundary line (limit + 1)
      then Turn.answered (handle (to_offset line (limit + 1))) (drain_oversized_line rest)
      else Turn.panicked

  unfoldable pub answer_line : Text → List ℕ → Turn
  unfolding trim len answer_oversized
  answer_line line rest =
      if is_empty (trim line)
      then Turn.skipped rest
      else if ltb limit (len line)
      then answer_oversized line rest
      else Turn.answered (handle line) rest

  -- Behind the read.
  unfoldable pub turn_on : List ℕ × List ℕ → Turn
  unfolding from_utf8 strip_newline answer_line
  turn_on (bytes, rest) = if is_empty bytes then Turn.end_of_input else (elim (from_utf8 bytes) [
    | none ↦ Turn.invalid_data
    | some text ↦ answer_line (strip_newline text) rest
  ])

  unfoldable pub turn : List ℕ → Turn
  unfolding read_until turn_on
  turn input = turn_on (read_until (limit + 2) input)

  abbrev pub before : Text → Served → Served
  before response served = record served { responses = response ∷ served.responses }

  unfoldable pub serve : ℕ → List ℕ → Option Served
  unfolding turn
  serve zero input = none
  serve (suc fuel) input = elim (turn input) [
    | Turn.end_of_input ↦ some (record { responses = []; ending = Ending.success })
    | Turn.invalid_data ↦ some (record { responses = []; ending = Ending.io_error })
    | Turn.panicked ↦ some (record { responses = []; ending = Ending.panic })
    | Turn.skipped rest ↦ serve fuel rest
    | Turn.answered response rest ↦ (elim (serve fuel rest) [
      | none ↦ none
      | some served ↦ some (before response served)
    ])
  ]
