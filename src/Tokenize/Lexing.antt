-- ===== src/Tokenize/Lexing.antt =====
-- What `lex` returns: the words of the line, each with the span and the text that it has there.
use autosuggest_core.Base.{
  ℕ, zero, suc, ◌+◌, ◌≤◌, ◌<◌, ◌≡◌, ◌≢◌, ◌⊎◌, inl, inr, refl, sym, ap, subst, ◌∙◌, Bool, true,
  false, List, [], ◌∷◌, ◌++◌, length, length-append, All, arith, Bool-cases, append-nil,
  append_assoc,
}
use autosuggest_core.Text.{Text, len, len_utf8, lead_byte, is_whitespace, slice}
use autosuggest_core.Text.Laws.{len-append, lead_byte-ascii}
use autosuggest_core.Text.Offsets.{slice_piece}
use autosuggest_core.Tokenize.{
  Token, Mode, Scanned, scan_word, skip_whitespace, lex_token, lex_loop, lex, unquote, unquote_loop,
}
use autosuggest_core.Tokenize.Quoting.{StartsBlank, dangling, Takes, scan_word-Takes}

-- Every number of the text is a Unicode scalar value, as those of a `String` are.
abbrev pub IsUnicode : Text → Type 0
IsUnicode = All (λ c. c < 0x110000)

abbrev pub IsBlank : Text → Type 0
IsBlank = All (λ c. is_whitespace (lead_byte c) ≡ true)

-- The mode in which `unquote` ends.
unfoldable pub end_mode : Text → Mode
end_mode piece = (unquote_loop Mode.plain piece [] false).0

-- `token` is the word `piece` of the line, between `before` and `after`. `unbroken`: before each blank
-- character of the piece, `unquote` has begun a quote or an escape that it has not ended.
pub record IsWord (before piece after : Text) (token : Token) : Type 0 where
  pub nonempty : piece ≢ []
  pub not_blank : ¬ StartsBlank piece
  pub raw : token.raw ≡ piece
  pub start : token.start ≡ len before
  pub stop : token.stop ≡ len before + len piece
  pub text : token.text ≡ (unquote piece).0 ++ dangling (end_mode piece)
  pub quoted : token.quoted ≡ (unquote piece).1
  pub unbroken :
      (a b : Text) (c : ℕ)
      → piece ≡ a ++ c ∷ b
      → is_whitespace (lead_byte c) ≡ true
      → end_mode a ≢ Mode.plain
  pub ends : (after ≡ []) ⊎ ((end_mode piece ≡ Mode.plain) × StartsBlank after)

-- `tokens` are the words of `cs`, which stands behind `before` on the line: nothing but whitespace
-- is between them, and nothing is left out.
pub data Words : Text → Text → List Token → Type 0 where
  done : {before cs : Text} → IsBlank cs → Words before cs []
  word :
      {before cs : Text} {token : Token} {tokens : List Token} (gap piece after : Text)
      → IsBlank gap
      → cs ≡ gap ++ (piece ++ after)
      → IsWord (before ++ gap) piece after token
      → Words ((before ++ gap) ++ piece) after tokens
      → Words before cs (token ∷ tokens)

record Skips (cs : Text) (i : ℕ) (r : Text × ℕ) : Type 0 where
  gap : Text
  blank : IsBlank gap
  splits : cs ≡ gap ++ r.0
  stops : r.1 ≡ i + len gap
  ends : ¬ StartsBlank r.0

-- What separates tokens is ASCII, one byte each.
len_utf8_blank : (c : ℕ) → c < 0x110000 → is_whitespace (lead_byte c) ≡ true → len_utf8 c ≡ 1
unfolding len_utf8
len_utf8_blank c h w = ground (arith, lead_byte-ascii c)

skip_whitespace_blank :
    (c : ℕ) (cs : Text) (i : ℕ)
    → is_whitespace (lead_byte c) ≡ true
    → skip_whitespace (c ∷ cs) i ≡ skip_whitespace cs (i + 1)
unfolding skip_whitespace
skip_whitespace_blank c cs i e = rw (e, skip_whitespace)

skip_whitespace_word :
    (c : ℕ) (cs : Text) (i : ℕ)
    → is_whitespace (lead_byte c) ≡ false
    → skip_whitespace (c ∷ cs) i ≡ (c ∷ cs, i)
unfolding skip_whitespace
skip_whitespace_word c cs i e = rw (e, skip_whitespace)

Skips-blank :
    (c : ℕ) (cs : Text) (i : ℕ) (r : Text × ℕ)
    → c < 0x110000
    → is_whitespace (lead_byte c) ≡ true
    → Skips cs (i + 1) r
    → Skips (c ∷ cs) i r
unfolding len
Skips-blank c cs i r h e s = record {
  gap = c ∷ s.gap;
  blank = (e, s.blank);
  splits = ap (◌∷◌ c) s.splits;
  stops = omega (arith, s.stops, len_utf8_blank c h e);
  ends = s.ends;
}

skip_whitespace-Skips : (cs : Text) (i : ℕ) → IsUnicode cs → Skips cs i (skip_whitespace cs i)
skip_whitespace-Skips [] i u =
    unfold skip_whitespace len in
    record { gap = []; blank = tt; splits = refl; stops = omega arith; ends = λ h. h }
skip_whitespace-Skips (c ∷ cs) i u = elim (Bool-cases (is_whitespace (lead_byte c))) [
  | inl e ↦
      rw (skip_whitespace_blank c cs i e)
        (Skips-blank c cs i _ u.0 e (skip_whitespace-Skips cs (i + 1) u.1))
  | inr e ↦ rw (skip_whitespace_word c cs i e) (
      unfold len in
      record { gap = []; blank = tt; splits = refl; stops = omega arith; ends = λ h. cc })
]

Takes-nonempty :
    {mode : Mode} {c : ℕ} {cs : Text} {i : ℕ} {text : Text} {quoted : Bool} {w : Scanned}
    → (t : Takes mode (c ∷ cs) i text quoted w) → ¬ StartsBlank (c ∷ cs)
    → t.piece ≢ []
Takes-nonempty {c} {cs} {w} t h e =
    let whole : (c ∷ cs) ≡ w.rest = t.splits ∙ ap (λ p. p ++ w.rest) e in
    elim t.ends [ inl q ↦ cc | inr (m, b) ↦ h (subst StartsBlank (sym whole) b) ]

-- A text that begins a nonempty piece does not begin with whitespace if the whole does not.
StartsBlank-append :
    (piece after : Text) → piece ≢ [] → StartsBlank piece → StartsBlank (piece ++ after)
StartsBlank-append [] after h b = absurd b
StartsBlank-append (c ∷ cs) after h b = b

abbrev token_of : Text → ℕ → Scanned → Token
token_of line start w = record {
  text = w.text;
  raw = slice line start w.stop;
  start = start;
  stop = w.stop;
  quoted = w.quoted;
}

Takes-IsWord :
    (before line : Text) (c : ℕ) (cs : Text) (start : ℕ) (w : Scanned)
    → line ≡ before ++ (c ∷ cs)
    → start ≡ len before
    → ¬ StartsBlank (c ∷ cs)
    → (t : Takes Mode.plain (c ∷ cs) start [] false w)
    → IsWord before t.piece w.rest (token_of line start w)
unfolding unquote end_mode
Takes-IsWord before line c cs start w el es nb t = record {
  nonempty = Takes-nonempty t nb;
  not_blank = λ b. nb (
      subst StartsBlank (sym t.splits) (StartsBlank-append t.piece w.rest (Takes-nonempty t nb) b));
  raw = rw (el, t.stops, es, t.splits) (slice_piece before t.piece w.rest);
  start = es;
  stop = omega (arith, t.stops);
  text = t.reads;
  quoted = t.marks;
  unbroken = t.unbroken;
  ends = t.ends;
}

length-pos : {A : Type 0} (xs : List A) → xs ≢ [] → 0 < length xs
length-pos [] h = absurd (h refl)
length-pos (x ∷ xs) h = omega arith

pub All-append_inv {κ} :
    {A : Type 0} (P : A → Type κ) (xs ys : List A) → All P (xs ++ ys) → All P ys
All-append_inv P [] ys h = h
All-append_inv P (x ∷ xs) ys h = All-append_inv P xs ys h.1

-- The rounds of `lex`: `next` finds the words of every shorter text that ends the line.
lex_token-Words :
    (next : Text → ℕ → List Token) (fuel : ℕ) (before line rest : Text) (start : ℕ)
    → ((b cs : Text) (i : ℕ)
        → line ≡ b ++ cs
        → i ≡ len b
        → length cs ≤ fuel
        → IsUnicode cs
        → Words b cs (next cs i))
    → line ≡ before ++ rest
    → start ≡ len before
    → length rest ≤ suc fuel
    → IsUnicode rest
    → ¬ StartsBlank rest
    → (before₀ cs gap : Text) → before ≡ before₀ ++ gap
    → cs ≡ gap ++ rest
    → IsBlank gap
    → Words before₀ cs (lex_token next line rest start)
unfolding lex_token
lex_token-Words next fuel before line [] start ih el es hl u nb before₀ cs gap eb ec bl =
    done (rw (ec, append-nil gap) bl)
lex_token-Words next fuel before line (c ∷ r) start ih el es hl u nb before₀ cs gap eb ec bl =
    let w = scan_word Mode.plain (c ∷ r) start [] false in
    let t = scan_word-Takes Mode.plain (c ∷ r) start [] false (inl refl) in
    let p = length-pos t.piece (Takes-nonempty t nb) in
    let size = ap length t.splits ∙ length-append t.piece w.rest in
    word gap t.piece w.rest bl (ec ∙ ap (λ x. gap ++ x) t.splits)
      (rw (← eb) (Takes-IsWord before line c r start w el es nb t))
      (rw (← eb) (
        ih (before ++ t.piece) w.rest w.stop
          (el ∙ ap (λ x. before ++ x) t.splits ∙ sym (append_assoc before t.piece w.rest))
          (omega (arith, t.stops, len-append before t.piece)) (omega (arith, p, size))
          (All-append_inv _ t.piece w.rest (subst IsUnicode t.splits u))))

lex_loop-Words :
    (fuel : ℕ) (line before cs : Text) (i : ℕ)
    → line ≡ before ++ cs
    → i ≡ len before
    → length cs ≤ fuel
    → IsUnicode cs
    → Words before cs (lex_loop fuel line cs i)
unfolding lex_loop
lex_loop-Words zero line before [] i el es hl u = done tt
lex_loop-Words zero line before (c ∷ cs) i el es hl u = absurd (omega arith)
lex_loop-Words (suc fuel) line before cs i el es hl u =
    let (rest, start) = skip_whitespace cs i in
    let s = skip_whitespace-Skips cs i u in
    let size = ap length s.splits ∙ length-append s.gap rest in
    lex_token-Words (lex_loop fuel line) fuel (before ++ s.gap) line rest start
      (lex_loop-Words fuel line)
      (el ∙ ap (λ x. before ++ x) s.splits ∙ sym (append_assoc before s.gap rest))
      (omega (arith, s.stops, len-append before s.gap)) (omega (arith, size))
      (All-append_inv _ s.gap rest (subst IsUnicode s.splits u)) s.ends before cs s.gap refl
      s.splits s.blank

-- On a line of Unicode scalar values, the tokens of `lex` are the words of the whole line in order:
-- only whitespace stands between them, each raw text and byte span is exact, whitespace is in a word
-- only inside quotes or escaped, each word ends at the end of the line or before whitespace that is
-- neither, and its text and quote mark are those that
-- `unquote` gives, with a backslash more where the line ends in a backslash that escapes nothing.
pub lex-Words : (line : Text) → IsUnicode line → Words [] line (lex line)
lex-Words line u =
    unfold lex len in lex_loop-Words (length line) line [] line 0 refl refl (omega arith) u
