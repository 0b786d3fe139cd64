-- ===== src/Daemon/Scan.antt =====
-- crates/daemon/src/lib.rs: the id that is salvaged from a line that is no request.
use autosuggest_core.Base.{
  ℕ, ◌+◌, ◌-◌, ◌*◌, Bool, true, false, ◌&&◌, [], ◌∷◌, Option, none, some, leb, ◌==◌, if◌then◌else◌,
  is_empty, ◌>>=◌,
}
use autosuggest_core.Base.Int.{ℤ, neg}
use autosuggest_core.Text.{Text, codes, split_once}
use autosuggest_core.Output.{trim_start}

-- `char::is_ascii_digit`
abbrev pub is_digit : ℕ → Bool
is_digit c = leb b'0' c && leb c b'9'

-- The loop that collects the digits.
unfoldable pub leading_digits : Text → Text
leading_digits [] = []
leading_digits (c ∷ cs) = if is_digit c then c ∷ leading_digits cs else []

unfoldable pub digits_value : ℕ → Text → ℕ
digits_value acc [] = acc
digits_value acc (c ∷ cs) = digits_value (acc * 10 + (c - b'0')) cs

-- `value.parse::<i64>().ok()` for a value that is a sign, or none, and digits.
unfoldable pub parse_i64 : Bool → Text → Option ℤ
unfolding digits_value
parse_i64 false digits =
    if leb (digits_value 0 digits) 9223372036854775807
    then some (ℤ.pos (digits_value 0 digits))
    else none
parse_i64 true digits =
    if leb (digits_value 0 digits) 9223372036854775808
    then some (neg (digits_value 0 digits))
    else none

-- Whether a sign stands next, and what stands behind it.
unfoldable pub take_sign : Text → Bool × Text
take_sign [] = (false, [])
take_sign (c ∷ cs) = if c == b'-' then (true, cs) else (false, c ∷ cs)

unfoldable pub scan_value : Text → Option ℤ
unfolding take_sign leading_digits parse_i64
scan_value text =
    let (negative, rest) = take_sign text in
    if is_empty (leading_digits rest) then none else parse_i64 negative (leading_digits rest)

unfoldable pub scan_id : Text → Option ℤ
unfolding split_once trim_start scan_value
scan_id line = do
  (before, rest) ← split_once line (codes "\"id\"")
  (between, value) ← split_once rest (codes ":")
  scan_value (trim_start value)
