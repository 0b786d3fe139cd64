-- ===== src/Tokenize.antt =====
-- crates/core/src/tokenize.rs: the command line as tokens, and the token that the cursor edits.
-- The byte index `i` of the source walks whole characters, so the text that is left from `i` stands
-- in for it here, beside `i` itself. The nested loops over a word are one scan whose mode says in
-- which loop it is.
pub mod Quoting
pub mod Lexing
pub mod Cursor
use autosuggest_core.Base.{
  ℕ, zero, suc, ◌+◌, min, Bool, true, false, List, [], ◌∷◌, ◌++◌, Option, none, some, ltb, leb,
  ◌==◌, if◌then◌else◌, length, get_elem?, take, is_empty, unwrap_or,
}
use autosuggest_core.Text.{
  Text, len_utf8, lead_byte, is_whitespace, len, from_offset, slice, is_char_boundary,
}

pub record Token : Type 0 where
  pub text : Text
  pub raw : Text
  pub start : ℕ
  pub stop : ℕ
  pub quoted : Bool

pub record TokenList : Type 0 where
  pub tokens : List Token
  pub cursor_token : Option ℕ
  pub query_prefix : Text

abbrev pub single_quote : ℕ
single_quote = 39

abbrev pub double_quote : ℕ
double_quote = 34

abbrev pub backslash : ℕ
backslash = 92

-- Outside quotes, behind a backslash, in single quotes, in double quotes, behind a backslash there.
pub data Mode : Type 0 where
  plain plain_escape single double double_escape : Mode

-- `clamp_cursor`: the loop that steps down to a character boundary, then the function.
snap_down : Text → ℕ → ℕ
unfolding is_char_boundary
snap_down line zero = zero
snap_down line (suc c) = elim (is_char_boundary line (suc c)) [
  | true ↦ suc c
  | false ↦ snap_down line c
]

unfoldable pub clamp_cursor : Text → ℕ → ℕ
unfolding snap_down len
clamp_cursor line cursor = snap_down line (min cursor (len line))

-- The unquoted text and the quote mark of a word, the index behind it, and the text from there.
pub record Scanned : Type 0 where
  pub text : Text
  pub quoted : Bool
  pub stop : ℕ
  pub rest : Text

-- What a character does to the scan: end the word, or go on in a mode with what is pushed.
pub data Action : Type 0 where
  finish : Action
  go : Mode → Text → Bool → Action

-- One round of the loop over a word, at the character `c` with `more` behind it.
unfoldable pub scan_step : Mode → ℕ → Text → Text → Bool → Action
unfolding is_whitespace lead_byte
scan_step Mode.plain c more text quoted =
    if is_whitespace (lead_byte c)
    then Action.finish
    else if c == single_quote
    then Action.go Mode.single text true
    else if c == double_quote
    then Action.go Mode.double text true
    else if c == backslash
    then (if is_empty more
        then Action.go Mode.plain (text ++ c ∷ []) quoted
        else Action.go Mode.plain_escape text quoted)
    else Action.go Mode.plain (text ++ c ∷ []) quoted
scan_step Mode.plain_escape c more text quoted = Action.go Mode.plain (text ++ c ∷ []) quoted
scan_step Mode.single c more text quoted =
    if c == single_quote
    then Action.go Mode.plain text quoted
    else Action.go Mode.single (text ++ c ∷ []) quoted
scan_step Mode.double c more text quoted =
    if c == double_quote
    then Action.go Mode.plain text quoted
    else if c == backslash
    then (if is_empty more
        then Action.go Mode.double (text ++ c ∷ []) quoted
        else Action.go Mode.double_escape text quoted)
    else Action.go Mode.double (text ++ c ∷ []) quoted
scan_step Mode.double_escape c more text quoted = Action.go Mode.double (text ++ c ∷ []) quoted

unfoldable pub scan_word : Mode → Text → ℕ → Text → Bool → Scanned
unfolding scan_step len_utf8
scan_word mode [] i text quoted = record { text = text; quoted = quoted; stop = i; rest = [] }
scan_word mode (c ∷ cs) i text quoted = elim (scan_step mode c cs text quoted) [
  | Action.finish ↦ record { text = text; quoted = quoted; stop = i; rest = c ∷ cs }
  | Action.go mode' text' quoted' ↦ scan_word mode' cs (i + len_utf8 c) text' quoted'
]

-- `while i < len && (bytes[i] as char).is_whitespace() { i += 1; }`
unfoldable pub skip_whitespace : Text → ℕ → Text × ℕ
unfolding is_whitespace lead_byte
skip_whitespace [] i = ([], i)
skip_whitespace (c ∷ cs) i = elim (is_whitespace (lead_byte c)) [
  | true ↦ skip_whitespace cs (i + 1)
  | false ↦ (c ∷ cs, i)
]

-- A round of the outer loop of `lex`, behind the whitespace: `next` is the loop from there on.
unfoldable pub lex_token : (Text → ℕ → List Token) → Text → Text → ℕ → List Token
unfolding scan_word slice
lex_token next line [] start = []
lex_token next line (c ∷ cs) start =
    let word = scan_word Mode.plain (c ∷ cs) start [] false in
    record {
      text = word.text;
      raw = slice line start word.stop;
      start = start;
      stop = word.stop;
      quoted = word.quoted;
    }
    ∷ next word.rest word.stop

-- The outer loop of `lex`, with a round for each token.
unfoldable pub lex_loop : ℕ → Text → Text → ℕ → List Token
unfolding skip_whitespace lex_token
lex_loop zero line cs i = []
lex_loop (suc fuel) line cs i =
    let (rest, start) = skip_whitespace cs i in lex_token (lex_loop fuel line) line rest start

unfoldable pub lex : Text → List Token
unfolding lex_loop
lex line = lex_loop (length line) line line 0

-- One round of the loops of `unquote`, at the character `c`.
unfoldable pub unquote_step : Mode → ℕ → Text → Bool → Mode × Text × Bool
unquote_step Mode.plain c out quoted =
    if c == single_quote
    then (Mode.single, out, true)
    else if c == double_quote
    then (Mode.double, out, true)
    else if c == backslash
    then (Mode.plain_escape, out, quoted)
    else (Mode.plain, out ++ c ∷ [], quoted)
unquote_step Mode.plain_escape c out quoted = (Mode.plain, out ++ c ∷ [], quoted)
unquote_step Mode.single c out quoted =
    if c == single_quote then (Mode.plain, out, quoted) else (Mode.single, out ++ c ∷ [], quoted)
unquote_step Mode.double c out quoted =
    if c == double_quote
    then (Mode.plain, out, quoted)
    else if c == backslash
    then (Mode.double_escape, out, quoted)
    else (Mode.double, out ++ c ∷ [], quoted)
unquote_step Mode.double_escape c out quoted = (Mode.double, out ++ c ∷ [], quoted)

-- The mode that comes back says in which loop the characters ran out.
unfoldable pub unquote_loop : Mode → Text → Text → Bool → Mode × Text × Bool
unfolding unquote_step
unquote_loop mode [] out quoted = (mode, out, quoted)
unquote_loop mode (c ∷ cs) out quoted =
    let (mode', out', quoted') = unquote_step mode c out quoted in
    unquote_loop mode' cs out' quoted'

unfoldable pub unquote : Text → Text × Bool
unfolding unquote_loop
unquote raw = let (mode, out, quoted) = unquote_loop Mode.plain raw [] false in (out, quoted)

-- `line[cursor..].chars().next().map(char::is_whitespace).unwrap_or(true)`
unfoldable pub next_is_boundary : Text → ℕ → Bool
unfolding from_offset is_whitespace
next_is_boundary line cursor = elim (from_offset line cursor) [
  | [] ↦ true
  | c ∷ cs ↦ is_whitespace c
]

-- The body of the loop over the tokens: whether it sets `cursor_token` and breaks.
unfoldable pub edits : Text → ℕ → Token → Bool
unfolding next_is_boundary len
edits line cursor token =
    if leb token.start cursor
    then (if leb cursor token.stop
        then (if ltb cursor token.stop
            then true
            else (if next_is_boundary line cursor then cursor == len line else true))
        else false)
    else false

unfoldable pub find_cursor : Text → ℕ → ℕ → List Token → Option ℕ
unfolding edits
find_cursor line cursor i [] = none
find_cursor line cursor i (token ∷ tokens) =
    let rest = find_cursor line cursor (i + 1) tokens in
    if edits line cursor token then some i else rest

unfoldable pub prefix_at : Text → ℕ → List Token → Option ℕ → Text
unfolding unquote slice
prefix_at line cursor tokens none = []
prefix_at line cursor tokens (some i) = elim (get_elem? tokens i) [
  | none ↦ []
  | some token ↦ (unquote (slice line token.start cursor)).0
]

unfoldable pub tokenize : Text → ℕ → TokenList
unfolding clamp_cursor lex find_cursor prefix_at
tokenize line cursor =
    let at = clamp_cursor line cursor in
    let tokens = lex line in
    let cursor_token = find_cursor line at 0 tokens in
    record {
      tokens = tokens;
      cursor_token = cursor_token;
      query_prefix = prefix_at line at tokens cursor_token;
    }

abbrev pub query : TokenList → Text
query t = t.query_prefix

unfoldable pub committed : TokenList → List Token
committed t = elim t.cursor_token [ none ↦ t.tokens | some i ↦ take i t.tokens ]
