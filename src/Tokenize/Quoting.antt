-- ===== src/Tokenize/Quoting.antt =====
-- The lexer and `unquote` read quotes alike: what a word scans to, by the characters that it takes.
use autosuggest_core.Base.{
  ℕ, ◌+◌, ◌≡◌, ◌≢◌, ◌⊎◌, inl, inr, refl, sym, ap, Bool, true, [], ◌∷◌, ◌++◌, ◌==◌, arith,
  Bool-cases, append-nil,
}
use autosuggest_core.Text.{Text, len, len_utf8, lead_byte, is_whitespace}
use autosuggest_core.Tokenize.{
  Mode, Action, Scanned, backslash, scan_step, scan_word, unquote_step, unquote_loop,
}

-- A text whose next character ends a word.
abbrev pub StartsBlank : Text → Type 0
StartsBlank [] = ⊥
StartsBlank (c ∷ cs) = is_whitespace (lead_byte c) ≡ true

-- The backslash that `lex` keeps and `unquote` drops when nothing follows it.
abbrev pub dangling : Mode → Text
dangling Mode.plain_escape = backslash ∷ []
dangling Mode.double_escape = backslash ∷ []
dangling _ = []

module _ (mode : Mode) (c : ℕ) (more text : Text) (quoted : Bool) where
  abbrev Ends : Type 0
  Ends =
      (scan_step mode c more text quoted ≡ Action.finish)
      × (mode ≡ Mode.plain)
      × (is_whitespace (lead_byte c) ≡ true)

  abbrev Agrees : Type 0
  Agrees =
      let (mode', text', quoted') = unquote_step mode c text quoted in
      scan_step mode c more text quoted ≡ Action.go mode' text' quoted'

  abbrev Dangles : Type 0
  Dangles =
      let (mode', text', quoted') = unquote_step mode c text quoted in
      (more ≡ [])
      × (m : Mode) × (scan_step mode c more text quoted
          ≡ Action.go m (text ++ backslash ∷ []) quoted)
      × (text' ≡ text)
      × (quoted' ≡ quoted)
      × (dangling mode' ≡ backslash ∷ [])

step_cases :
    (mode : Mode) (c : ℕ) (more text : Text) (quoted : Bool)
    → Ends mode c more text quoted
      ⊎ (Agrees mode c more text quoted ⊎ Dangles mode c more text quoted)
unfolding scan_step unquote_step
step_cases Mode.plain c [] text quoted = elim (Bool-cases (is_whitespace (lead_byte c))) [
  | inl w ↦ inl (rw w, refl, w)
  | inr w ↦ elim (Bool-cases (c == backslash)) [
    | inl b ↦ inr (inr (refl, Mode.plain, ground arith, ground arith, ground arith, ground arith))
    | inr b ↦ inr (inl (ground arith))
  ]
]
step_cases Mode.plain c (d ∷ ds) text quoted = elim (Bool-cases (is_whitespace (lead_byte c))) [
  | inl w ↦ inl (rw w, refl, w)
  | inr w ↦ inr (inl (ground arith))
]
step_cases Mode.plain_escape c more text quoted = inr (inl refl)
step_cases Mode.single c more text quoted = inr (inl (ground arith))
step_cases Mode.double c [] text quoted = elim (Bool-cases (c == backslash)) [
  | inl b ↦ inr (inr (refl, Mode.double, ground arith, ground arith, ground arith, ground arith))
  | inr b ↦ inr (inl (ground arith))
]
step_cases Mode.double c (d ∷ ds) text quoted = inr (inl (ground arith))
step_cases Mode.double_escape c more text quoted = inr (inl refl)

-- What a scan from `mode` takes: the characters `piece`, and what `unquote` makes of them.
pub record Takes (mode : Mode) (cs : Text) (i : ℕ) (text : Text) (quoted : Bool) (w : Scanned)
    : Type 0 where
  pub piece : Text
  pub splits : cs ≡ piece ++ w.rest
  pub stops : w.stop ≡ i + len piece
  pub reads :
      w.text
      ≡ (unquote_loop mode piece text quoted).1 ++ dangling (unquote_loop mode piece text quoted).0
  pub marks : w.quoted ≡ (unquote_loop mode piece text quoted).2
  pub unbroken :
      (a b : Text) (d : ℕ)
      → piece ≡ a ++ d ∷ b
      → is_whitespace (lead_byte d) ≡ true
      → (unquote_loop mode a text quoted).0 ≢ Mode.plain
  pub ends :
      (w.rest ≡ []) ⊎ (((unquote_loop mode piece text quoted).0 ≡ Mode.plain) × StartsBlank w.rest)

scan_word_finish :
    (mode : Mode) (c : ℕ) (cs : Text) (i : ℕ) (text : Text) (quoted : Bool)
    → scan_step mode c cs text quoted ≡ Action.finish
    → scan_word mode (c ∷ cs) i text quoted
      ≡ record { text = text; quoted = quoted; stop = i; rest = c ∷ cs }
unfolding scan_word
scan_word_finish mode c cs i text quoted e = rw (e, scan_word)

scan_word_go :
    (mode mode' : Mode) (c : ℕ) (cs : Text) (i : ℕ) (text text' : Text) (quoted quoted' : Bool)
    → scan_step mode c cs text quoted ≡ Action.go mode' text' quoted'
    → scan_word mode (c ∷ cs) i text quoted ≡ scan_word mode' cs (i + len_utf8 c) text' quoted'
unfolding scan_word
scan_word_go mode mode' c cs i text text' quoted quoted' e = rw (e, scan_word)

split_nil : (a b : Text) (d : ℕ) → [] ≡ a ++ d ∷ b → ⊥
split_nil [] b d e = cc
split_nil (x ∷ a) b d e = cc

-- A scan goes on over a blank character only behind a quote or an escape.
scan_step_blank :
    (mode : Mode) (c : ℕ) (more text : Text) (quoted : Bool)
    → mode ≡ Mode.plain
    → is_whitespace (lead_byte c) ≡ true
    → scan_step mode c more text quoted ≡ Action.finish
unfolding scan_step
scan_step_blank Mode.plain c [] text quoted e w = rw w refl
scan_step_blank Mode.plain c (d ∷ ds) text quoted e w = rw w refl
scan_step_blank Mode.plain_escape c more text quoted e w = absurd (cc)
scan_step_blank Mode.single c more text quoted e w = absurd (cc)
scan_step_blank Mode.double c more text quoted e w = absurd (cc)
scan_step_blank Mode.double_escape c more text quoted e w = absurd (cc)

-- A character that is taken in plain mode is not blank.
abbrev IsTaken : Mode → ℕ → Type 0
IsTaken mode c = is_whitespace (lead_byte c) ≡ true → mode ≢ Mode.plain

unbroken_lem :
    (mode : Mode) (c : ℕ) (piece text : Text) (quoted : Bool)
    → IsTaken mode c
    → ((a b : Text) (d : ℕ)
        → piece ≡ a ++ d ∷ b
        → is_whitespace (lead_byte d) ≡ true
        → let (mode', text', quoted') = unquote_step mode c text quoted in
          (unquote_loop mode' a text' quoted').0 ≢ Mode.plain)
    → (a b : Text) (d : ℕ) → c ∷ piece ≡ a ++ d ∷ b
    → is_whitespace (lead_byte d) ≡ true
    → (unquote_loop mode a text quoted).0 ≢ Mode.plain
unfolding unquote_loop
unbroken_lem mode c piece text quoted t next [] b d e w = let q : c ≡ d = cc in t (rw q w)
unbroken_lem mode c piece text quoted t next (x ∷ a) b d e w =
    let q : c ≡ x = cc in let r : piece ≡ a ++ d ∷ b = cc in rw (sym q) (next a b d r w)

Takes-finish :
    (c : ℕ) (cs : Text) (i : ℕ) (text : Text) (quoted : Bool)
    → is_whitespace (lead_byte c) ≡ true
    → Takes Mode.plain
        (c ∷ cs)
        i
        text
        quoted
        (record { text = text; quoted = quoted; stop = i; rest = c ∷ cs })
unfolding unquote_loop len
Takes-finish c cs i text quoted w = record {
  piece = [];
  splits = refl;
  stops = omega arith;
  reads = sym (append-nil text);
  marks = refl;
  unbroken = λ a b d e. absurd (split_nil a b d e);
  ends = inr (refl, w);
}

Takes-go :
    (mode : Mode) (c : ℕ) (cs : Text) (i : ℕ) (text : Text) (quoted : Bool) (w : Scanned)
    → IsTaken mode c
    → let (mode', text', quoted') = unquote_step mode c text quoted in
      Takes mode' cs (i + len_utf8 c) text' quoted' w → Takes mode (c ∷ cs) i text quoted w
unfolding unquote_loop len
Takes-go mode c cs i text quoted w k t = record {
  piece = c ∷ t.piece;
  splits = ap (◌∷◌ c) t.splits;
  stops = omega (arith, t.stops);
  reads = t.reads;
  marks = t.marks;
  unbroken = unbroken_lem mode c t.piece text quoted k t.unbroken;
  ends = t.ends;
}

Takes-dangle :
    (mode : Mode) (c : ℕ) (i : ℕ) (text : Text) (quoted : Bool)
    → IsTaken mode c
    → let (mode', text', quoted') = unquote_step mode c text quoted in
      (text' ≡ text) × (quoted' ≡ quoted) × (dangling mode' ≡ backslash ∷ [])
      → Takes mode (c ∷ []) i text quoted (record {
        text = text ++ backslash ∷ [];
        quoted = quoted;
        stop = i + len_utf8 c;
        rest = [];
      })
unfolding unquote_loop len
Takes-dangle mode c i text quoted k (et, eq, ed) = record {
  piece = c ∷ [];
  splits = refl;
  stops = omega arith;
  reads = rw (et, ed);
  marks = sym eq;
  unbroken = unbroken_lem mode c [] text quoted k (λ a b d e. absurd (split_nil a b d e));
  ends = inl refl;
}

-- An escape is entered only where a character is left to escape.
abbrev pub Ready : Mode → Text → Type 0
Ready mode cs = (dangling mode ≡ []) ⊎ (cs ≢ [])

Ready-step :
    (mode : Mode) (c : ℕ) (cs text : Text) (quoted : Bool)
    → Agrees mode c cs text quoted
    → Ready (unquote_step mode c text quoted).0 cs
unfolding scan_step unquote_step
Ready-step mode c (d ∷ ds) text quoted h = inr (λ e. cc)
Ready-step Mode.plain c [] text quoted h = inl (ground arith)
Ready-step Mode.plain_escape c [] text quoted h = inl refl
Ready-step Mode.single c [] text quoted h = inl (ground arith)
Ready-step Mode.double c [] text quoted h = inl (ground arith)
Ready-step Mode.double_escape c [] text quoted h = inl refl

Takes-nil :
    (mode : Mode) (i : ℕ) (text : Text) (quoted : Bool)
    → Ready mode []
    → Takes mode [] i text quoted (record { text = text; quoted = quoted; stop = i; rest = [] })
unfolding unquote_loop len
Takes-nil mode i text quoted (inl e) = record {
  piece = [];
  splits = refl;
  stops = omega arith;
  reads = rw (e, append-nil text);
  marks = refl;
  unbroken = λ a b d e. absurd (split_nil a b d e);
  ends = inl refl;
}
Takes-nil mode i text quoted (inr n) = absurd (n refl)

-- A scan takes a piece of the text, to the end or to whitespace outside quotes, and reads it as
-- `unquote` does.
pub scan_word-Takes :
    (mode : Mode) (cs : Text) (i : ℕ) (text : Text) (quoted : Bool)
    → Ready mode cs
    → Takes mode cs i text quoted (scan_word mode cs i text quoted)
scan_word-Takes mode [] i text quoted h = unfold scan_word in Takes-nil mode i text quoted h
scan_word-Takes mode (c ∷ cs) i text quoted h = elim (step_cases mode c cs text quoted) [
  | inl (e, m, w) ↦
      rw (scan_word_finish mode c cs i text quoted e, m) (Takes-finish c cs i text quoted w)
  | inr (inl e) ↦
      let (mode', text', quoted') = unquote_step mode c text quoted in
      rw (scan_word_go mode mode' c cs i text text' quoted quoted' e) (
        Takes-go mode c cs i text quoted _
          (λ w q. let f = scan_step_blank mode c cs text quoted q w in cc)
          (scan_word-Takes mode' cs (i + len_utf8 c) text' quoted'
            (Ready-step mode c cs text quoted e)))
  | inr (inr (em, m, e, et, eq, ed)) ↦
      rw (scan_word_go mode m c cs i text _ quoted _ e, em)
        (unfold scan_word in
          Takes-dangle mode c i text quoted
            (λ w q. let f = scan_step_blank mode c [] text quoted q w in let e' = rw em at e in cc)
            (et, eq, ed))
]
