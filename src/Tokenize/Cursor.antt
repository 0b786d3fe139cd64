-- ===== src/Tokenize/Cursor.antt =====
-- The cursor: the boundary that it snaps to, and the token that it edits.
use mathlib.Core.Bool.{false≢true}
use autosuggest_core.Base.{
  ℕ, zero, suc, ◌+◌, ◌≤◌, ◌<◌, min, ◌≡◌, ◌⊎◌, ◌↔◌, inl, inr, refl, sym, ap, subst, ◌∙◌, true, false,
  List, [], ◌∷◌, ◌++◌, Option, none, some, get_elem?, take, All, arith, Bool-cases, append_assoc,
  ltb, leb, ◌==◌,
}
use autosuggest_core.Text.{Text, len, lead_byte, is_whitespace, is_char_boundary}
use autosuggest_core.Text.Laws.{len-append, lead_byte-ascii}
use autosuggest_core.Text.Offsets.{from_offset-len}
use autosuggest_core.Tokenize.{
  Token, snap_down, clamp_cursor, next_is_boundary, edits, find_cursor, tokenize,
}
use autosuggest_core.Tokenize.Quoting.{StartsBlank}
use autosuggest_core.Tokenize.Lexing.{IsUnicode, IsWord, Words, lex-Words, All-append_inv}

-- `k` is the last character boundary up to `limit`.
pub record IsLastBoundary (line : Text) (limit k : ℕ) : Type 0 where
  pub boundary : is_char_boundary line k ≡ true
  pub below : k ≤ limit
  pub greatest : (j : ℕ) → j ≤ limit → is_char_boundary line j ≡ true → j ≤ k

snap_down_here :
    (line : Text) (c : ℕ) → is_char_boundary line (suc c) ≡ true → snap_down line (suc c) ≡ suc c
unfolding snap_down
snap_down_here line c e = rw (e, snap_down)

snap_down_on :
    (line : Text) (c : ℕ)
    → is_char_boundary line (suc c) ≡ false
    → snap_down line (suc c) ≡ snap_down line c
unfolding snap_down
snap_down_on line c e = rw (e, snap_down)

IsLastBoundary-suc :
    (line : Text) (c k : ℕ)
    → is_char_boundary line (suc c) ≡ false
    → IsLastBoundary line c k
    → IsLastBoundary line (suc c) k
IsLastBoundary-suc line c k e b = record {
  boundary = b.boundary;
  below = omega (arith, b.below);
  greatest = λ j h q. elim (Bool-cases (leb j c)) [
    | inl le ↦ b.greatest j (ground arith) q
    | inr gt ↦ let s : j ≡ suc c = ground arith in absurd (cc)
  ];
}

snap_down-IsLastBoundary : (line : Text) (c : ℕ) → IsLastBoundary line c (snap_down line c)
snap_down-IsLastBoundary line zero =
    unfold snap_down is_char_boundary in
    record { boundary = refl; below = omega arith; greatest = λ j h q. h }
snap_down-IsLastBoundary line (suc c) = elim (Bool-cases (is_char_boundary line (suc c))) [
  | inl e ↦
      rw (snap_down_here line c e)
        (record { boundary = e; below = omega arith; greatest = λ j h q. h })
  | inr e ↦
      rw (snap_down_on line c e) (IsLastBoundary-suc line c _ e (snap_down-IsLastBoundary line c))
]

-- `clamp_cursor` returns the last character boundary of the line that is not past the given cursor,
-- whatever the cursor is.
pub clamp_cursor-IsLastBoundary :
    (line : Text) (cursor : ℕ)
    → IsLastBoundary line (min cursor (len line)) (clamp_cursor line cursor)
unfolding clamp_cursor
clamp_cursor-IsLastBoundary line cursor = snap_down-IsLastBoundary line (min cursor (len line))

-- The cursor stands in the token, or behind it at the end of the line.
abbrev pub Edited : Text → ℕ → Token → Type 0
Edited line cursor token =
    (token.start ≤ cursor) × ((cursor < token.stop) ⊎ ((cursor ≡ token.stop) × (cursor ≡ len line)))

blank_ascii : (c : ℕ) → c < 0x110000 → is_whitespace (lead_byte c) ≡ true → is_whitespace c ≡ true
blank_ascii c h w = elim (Bool-cases (ltb c 0x80)) [
  | inl small ↦ let e : lead_byte c ≡ c = unfold lead_byte in rw small in rw e at w
  | inr large ↦
      let n : is_whitespace (lead_byte c) ≡ false = lead_byte-ascii c (ground arith) h in
      absurd (cc)
]

first_is_blank :
    (after : Text)
    → IsUnicode after
    → (after ≡ []) ⊎ StartsBlank after
    → (elim after [ [] ↦ true | c ∷ cs ↦ is_whitespace c ]) ≡ true
first_is_blank [] u h = refl
first_is_blank (c ∷ cs) u (inl e) = absurd (cc)
first_is_blank (c ∷ cs) u (inr b) = blank_ascii c u.0 b

-- Behind a word the line ends or goes on with whitespace, in Unicode too.
next_is_boundary-word :
    (before piece after : Text)
    → IsUnicode after
    → (after ≡ []) ⊎ StartsBlank after
    → next_is_boundary ((before ++ piece) ++ after) (len before + len piece) ≡ true
next_is_boundary-word before piece after u h =
    let e : len before + len piece ≡ len (before ++ piece) = sym (len-append before piece) in
    rw e (
      unfold next_is_boundary in
      rw (from_offset-len (before ++ piece) after, next_is_boundary) (first_is_blank after u h))

IsWord-boundary :
    {before piece after line : Text} {token : Token}
    → line ≡ before ++ (piece ++ after)
    → IsUnicode after
    → IsWord before piece after token
    → next_is_boundary line token.stop ≡ true
IsWord-boundary {before} {piece} {after} el u w =
    let h : (after ≡ []) ⊎ StartsBlank after = elim w.ends [ inl e ↦ inl e | inr (m, b) ↦ inr b ] in
    rw (w.stop, el, ← append_assoc before piece after)
      (next_is_boundary-word before piece after u h)

edits_iff :
    (line : Text) (cursor : ℕ) (token : Token)
    → next_is_boundary line token.stop ≡ true
    → (edits line cursor token ≡ true) ↔ Edited line cursor token
unfolding edits
edits_iff line cursor token h = elim (Bool-cases (cursor == token.stop)) [
  | inl e ↦
      let q : cursor ≡ token.stop = ground arith in
      let n : next_is_boundary line cursor ≡ true = rw q h in (λ t. ground arith, λ t. ground arith)
  | inr e ↦ (λ t. ground arith, λ t. ground arith)
]

-- `found` is the index, counted from `i`, of the first token that the cursor edits.
abbrev pub Finds : Text → ℕ → ℕ → List Token → Option ℕ → Type 0
Finds line cursor i tokens none = All (λ t. ¬ Edited line cursor t) tokens
Finds line cursor i tokens (some k) =
    (n : ℕ) × (t : Token) × (k ≡ i + n)
    × (get_elem? tokens n ≡ some t)
    × Edited line cursor t
    × All (λ u. ¬ Edited line cursor u) (take n tokens)

Finds-cons :
    (line : Text) (cursor i : ℕ) (token : Token) (tokens : List Token) (found : Option ℕ)
    → ¬ Edited line cursor token
    → Finds line cursor (i + 1) tokens found
    → Finds line cursor i (token ∷ tokens) found
Finds-cons line cursor i token tokens none ne h = (ne, h)
Finds-cons line cursor i token tokens (some k) ne (n, t, e, g, ed, earlier) =
    (suc n, t, omega arith, g, ed, (ne, earlier))

find_cursor_here :
    (line : Text) (cursor i : ℕ) (token : Token) (tokens : List Token)
    → edits line cursor token ≡ true
    → find_cursor line cursor i (token ∷ tokens) ≡ some i
unfolding find_cursor
find_cursor_here line cursor i token tokens e = rw (e, find_cursor)

find_cursor_on :
    (line : Text) (cursor i : ℕ) (token : Token) (tokens : List Token)
    → edits line cursor token ≡ false
    → find_cursor line cursor i (token ∷ tokens) ≡ find_cursor line cursor (i + 1) tokens
unfolding find_cursor
find_cursor_on line cursor i token tokens e = rw (e, find_cursor)

find_cursor-Finds :
    (line : Text) (cursor i : ℕ) {before cs : Text} {tokens : List Token}
    → line ≡ before ++ cs
    → IsUnicode cs
    → Words before cs tokens
    → Finds line cursor i tokens (find_cursor line cursor i tokens)
find_cursor-Finds line cursor i el u (Words.done b) = unfold find_cursor in tt
find_cursor-Finds line cursor i {before} el u
      (Words.word {token} {tokens} gap piece after bl ec w rest) =
    let el' : line ≡ (before ++ gap) ++ (piece ++ after) =
      el ∙ ap (λ x. before ++ x) ec ∙ sym (append_assoc before gap (piece ++ after)) in
    let u' =
      All-append_inv _ piece after (All-append_inv _ gap (piece ++ after) (subst IsUnicode ec u)) in
    let (sound, complete) = edits_iff line cursor token (IsWord-boundary el' u' w) in
    elim (Bool-cases (edits line cursor token)) [
      | inl e ↦
          rw (find_cursor_here line cursor i token tokens e)
            (0, token, omega arith, refl, sound e, tt)
      | inr e ↦ rw (find_cursor_on line cursor i token tokens e) (
          Finds-cons line cursor i token tokens _ (λ d. false≢true (sym e ∙ complete d))
            (find_cursor-Finds line cursor (i + 1)
              (el' ∙ sym (append_assoc (before ++ gap) piece after)) u' rest))
    ]

-- On a line of Unicode scalar values, the cursor token is the first token in which the clamped cursor
-- stands, or behind which it stands at the end of the line; if it is absent there is no such token.
pub tokenize-Finds :
    (line : Text) (cursor : ℕ)
    → IsUnicode line
    → Finds line
        (clamp_cursor line cursor)
        0
        (tokenize line cursor).tokens
        (tokenize line cursor).cursor_token
tokenize-Finds line cursor u =
    unfold tokenize in find_cursor-Finds line (clamp_cursor line cursor) 0 refl u (lex-Words line u)
