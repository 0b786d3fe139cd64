-- ===== src/Daemon/Salvaged.antt =====
-- crates/daemon/src/lib.rs: that the scan of a line salvages its id.
use autosuggest_core.Base.{
  ℕ, ◌+◌, ◌-◌, ◌*◌, ◌≡◌, ◌≢◌, refl, sym, ap, ◌∙◌, Bool, true, false, [], ◌∷◌, ◌++◌, none, leb, ◌==◌,
  if◌then◌else◌, is_empty, inl, inr, arith, Bool-cases, All, unwrap_or,
}
use autosuggest_core.Base.Int.{ℤ}
use autosuggest_core.Text.{Text, codes, is_whitespace}
use autosuggest_core.Output.{trim_start}
use autosuggest_core.Daemon.Scan.{
  is_digit, leading_digits, digits_value, parse_i64, take_sign, scan_value, scan_id,
}
use autosuggest_core.Daemon.Salvage.{
  BeginsWith, IsDigit, decimal, IsNumeral, Reads, Salvages, split_once-Splits,
}

abbrev IsBlank : ℕ → Type 0
IsBlank c = is_whitespace c ≡ true

-- What `trim_start` leaves.
record Trims (text : Text) : Type 0 where
  blank : Text
  splits : text ≡ blank ++ trim_start text
  is_blank : All IsBlank blank
  stops : ¬ BeginsWith IsBlank (trim_start text)

trim_start-Trims : (text : Text) → Trims text
unfolding trim_start
trim_start-Trims [] = record { blank = []; splits = refl; is_blank = tt; stops = λ h. h }
trim_start-Trims (c ∷ cs) = elim (Bool-cases (is_whitespace c)) [
  | inl e ↦
      let t = trim_start-Trims cs in
      record {
        blank = c ∷ t.blank;
        splits = rw e (ap (◌∷◌ c) t.splits);
        is_blank = (e, t.is_blank);
        stops = rw e t.stops;
      }
  | inr e ↦ record { blank = []; splits = rw e refl; is_blank = tt; stops = rw e (λ h. cc) }
]

-- What `leading_digits` takes.
record Takes (text : Text) : Type 0 where
  rest : Text
  splits : text ≡ leading_digits text ++ rest
  digits : All IsDigit (leading_digits text)
  stops : ¬ BeginsWith IsDigit rest

leading_digits-Takes : (text : Text) → Takes text
unfolding leading_digits
leading_digits-Takes [] = record { rest = []; splits = refl; digits = tt; stops = λ h. h }
leading_digits-Takes (c ∷ cs) = elim (Bool-cases (is_digit c)) [
  | inl e ↦
      let t = leading_digits-Takes cs in
      record {
        rest = t.rest;
        splits = rw e (ap (◌∷◌ c) t.splits);
        digits = rw e (ground (arith, e), t.digits);
        stops = t.stops;
      }
  | inr e ↦ record {
    rest = c ∷ cs;
    splits = rw e refl;
    digits = rw e tt;
    stops = λ (a, b). absurd (ground (arith, e, a, b));
  }
]

digits_value-decimal : (acc : ℕ) (cs : Text) → digits_value acc cs ≡ decimal acc cs
unfolding digits_value
digits_value-decimal acc [] = refl
digits_value-decimal acc (c ∷ cs) =
    digits_value-decimal (acc * 10 + (c - 48)) cs ∙ ap (λ n. decimal n cs) (omega arith)

is_empty-nil : (text : Text) → is_empty text ≡ true → text ≡ []
is_empty-nil [] h = refl
is_empty-nil (c ∷ cs) h = absurd (cc)

not_nil : (text : Text) → is_empty text ≡ false → text ≢ []
not_nil [] h e = absurd (cc)
not_nil (c ∷ cs) h e = absurd (cc)

Takes-IsNumeral :
    (text : Text)
    → is_empty (leading_digits text) ≡ false
    → (rest : Text) × IsNumeral (leading_digits text) rest text
Takes-IsNumeral text h =
    let t = leading_digits-Takes text in
    (t.rest, (t.splits, (not_nil (leading_digits text) h, (t.digits, t.stops))))

leading_digits-empty :
    (text : Text) → is_empty (leading_digits text) ≡ true → ¬ BeginsWith IsDigit text
unfolding leading_digits
leading_digits-empty [] h b = b
leading_digits-empty (c ∷ cs) h (a, b) =
    let e : is_digit c ≡ true = ground (arith, a, b) in let h' = rw e at h in absurd (cc)

abbrev signed : Bool → Text → ℤ
signed negative text =
    unwrap_or
      (if is_empty (leading_digits text) then none else parse_i64 negative (leading_digits text))
      (ℤ.negsuc 0)

signed-positive :
    (text : Text)
    → ((value : Text) → text ≡ b'-' ∷ value → ¬ BeginsWith IsDigit value)
    → Reads text (signed false text)
unfolding parse_i64
signed-positive text n = elim (Bool-cases (is_empty (leading_digits text))) [
  | inl e ↦ rw e (Reads.no_number (leading_digits-empty text e) n)
  | inr e ↦
      let (rest, k) = Takes-IsNumeral text e in
      let d = digits_value-decimal 0 (leading_digits text) in
      elim (Bool-cases (leb (decimal 0 (leading_digits text)) 9223372036854775807)) [
        | inl l ↦
            rw (e, parse_i64, d, l)
              (Reads.positive (leading_digits text) rest k (ground (arith, l)))
        | inr l ↦
            rw (e, parse_i64, d, l)
              (Reads.too_large (leading_digits text) rest k (ground (arith, l)))
      ]
]

signed-negative : (text value : Text) → text ≡ b'-' ∷ value → Reads text (signed true value)
unfolding parse_i64
signed-negative text value q = elim (Bool-cases (is_empty (leading_digits value))) [
  | inl e ↦ rw e (
      Reads.no_number (rw q (λ (a, b). absurd (omega (arith, a, b)))) (λ other r.
        let s : value ≡ other = (let r' = rw q at r in cc) in
        rw (sym s) (leading_digits-empty value e)))
  | inr e ↦
      let (rest, k) = Takes-IsNumeral value e in
      let d = digits_value-decimal 0 (leading_digits value) in
      elim (Bool-cases (leb (decimal 0 (leading_digits value)) 9223372036854775808)) [
        | inl l ↦
            rw (e, parse_i64, d, l)
              (Reads.negative value (leading_digits value) rest q k (ground (arith, l)))
        | inr l ↦
            rw (e, parse_i64, d, l)
              (Reads.too_small value (leading_digits value) rest q k (ground (arith, l)))
      ]
]

scan_value-Reads : (text : Text) → Reads text (unwrap_or (scan_value text) (ℤ.negsuc 0))
unfolding scan_value take_sign
scan_value-Reads [] = signed-positive [] (λ value q. absurd (cc))
scan_value-Reads (c ∷ cs) = elim (Bool-cases (c == b'-')) [
  | inl e ↦
      let q : c ≡ b'-' = ground (arith, e) in
      rw (scan_value, take_sign, e) (signed-negative (c ∷ cs) cs (ap (λ z. z ∷ cs) q))
  | inr e ↦
      rw (scan_value, take_sign, e)
        (signed-positive (c ∷ cs)
          (λ value q. let r : c ≡ b'-' = cc in absurd (ground (arith, e, r))))
]

-- The id that the scan of a line gives, or -1 if it gives none.
pub scan_id-Salvages : (line : Text) → Salvages line (unwrap_or (scan_id line) (ℤ.negsuc 0))
unfolding scan_id
scan_id-Salvages line = elim (split_once-Splits line (codes "\"id\"")) [
  | inl (s, f) ↦ rw (scan_id, s) (Salvages.no_key f)
  | inr (before, after, (s, f)) ↦ elim (split_once-Splits after (codes ":")) [
    | inl (s', g) ↦ rw (scan_id, s, s') (Salvages.no_colon before after f g)
    | inr (between, value, (s', g)) ↦
        let t = trim_start-Trims value in
        rw (scan_id, s, s')
          (Salvages.found before after between value t.blank (trim_start value) f g t.splits
            t.is_blank t.stops (scan_value-Reads (trim_start value)))
  ]
]
