-- ===== src/Text.antt =====
-- The strings that the program reads: a `&str` is the list of its Unicode scalar values, and a
-- position in it is a byte offset of its UTF-8 encoding, as in Rust.
-- These are the operations of `str` and `char` that crates/core uses.
pub mod Laws
pub mod Offsets
pub mod Utf8
use Prim.Native.Char.{code}
use Prim.Native.String.{String}
use autosuggest_core.Base.{
  ℕ, zero, suc, ◌+◌, ◌-◌, ◌/◌, Bool, true, false, ◌&&◌, ◌||◌, List, [], ◌∷◌, ◌++◌, Option, none,
  some, compare, Ordering, ltb, leb, ◌==◌, if◌then◌else◌, is_empty,
}
use autosuggest_core.Base.Sort.{then_with}

abbrev pub Text : Type 0
Text = List ℕ

-- A text literal.
abbrev pub codes : String → Text
codes String.[] = []
codes (String.◌∷◌ c s) = code c ∷ codes s

-- `char::len_utf8`
unfoldable pub len_utf8 : ℕ → ℕ
len_utf8 c = if ltb c 0x80 then 1 else if ltb c 0x800 then 2 else if ltb c 0x10000 then 3 else 4

-- The first byte of the encoding of `c`.
unfoldable pub lead_byte : ℕ → ℕ
lead_byte c =
    if ltb c 0x80
    then c
    else if ltb c 0x800
    then 0xC0 + c / 64
    else if ltb c 0x10000
    then 0xE0 + c / 4096
    else 0xF0 + c / 262144

-- `char::is_whitespace`: Unicode White_Space.
unfoldable pub is_whitespace : ℕ → Bool
is_whitespace c =
    (leb 9 c && leb c 13)
    || c == 0x20
    || c == 0x85
    || c == 0xA0
    || c == 0x1680
    || (leb 0x2000 c && leb c 0x200A)
    || c == 0x2028
    || c == 0x2029
    || c == 0x202F
    || c == 0x205F
    || c == 0x3000

-- `str::len`
unfoldable pub len : Text → ℕ
unfolding len_utf8
len [] = 0
len (c ∷ cs) = len_utf8 c + len cs

-- `==` on strings
unfoldable pub text_eq : Text → Text → Bool
text_eq [] [] = true
text_eq [] (d ∷ ds) = false
text_eq (c ∷ cs) [] = false
text_eq (c ∷ cs) (d ∷ ds) = c == d && text_eq cs ds

-- `Ord::cmp` on strings. UTF-8 orders texts by their scalar values.
unfoldable pub text_cmp : Text → Text → Ordering
text_cmp [] [] = Ordering.eq
text_cmp [] (d ∷ ds) = Ordering.lt
text_cmp (c ∷ cs) [] = Ordering.gt
text_cmp (c ∷ cs) (d ∷ ds) = then_with (compare c d) (text_cmp cs ds)

-- `text.starts_with(prefix)`
unfoldable pub starts_with : Text → Text → Bool
starts_with cs [] = true
starts_with [] (p ∷ ps) = false
starts_with (c ∷ cs) (p ∷ ps) = c == p && starts_with cs ps

-- `text.strip_prefix(prefix)`
unfoldable pub strip_prefix : Text → Text → Option Text
strip_prefix cs [] = some cs
strip_prefix [] (p ∷ ps) = none
strip_prefix (c ∷ cs) (p ∷ ps) = if c == p then strip_prefix cs ps else none

-- `text.find(pattern)` with `split_at` at the place found: what stands before the first occurrence,
-- and what stands behind it.
unfoldable pub split_once : Text → Text → Option (Text × Text)
unfolding strip_prefix
split_once [] pattern = elim (strip_prefix [] pattern) [ none ↦ none | some rest ↦ some ([], rest) ]
split_once (c ∷ cs) pattern = elim (strip_prefix (c ∷ cs) pattern) [
  | some rest ↦ some ([], rest)
  | none ↦ elim (split_once cs pattern) [
    | none ↦ none
    | some (before, after) ↦ some (c ∷ before, after)
  ]
]

-- `text.contains(pattern)`
unfoldable pub contains : Text → Text → Bool
unfolding starts_with
contains [] pattern = starts_with [] pattern
contains (c ∷ cs) pattern = if starts_with (c ∷ cs) pattern then true else contains cs pattern

-- `text.split_whitespace()`: `word` is the piece that is being read.
split_words : Text → Text → List Text
unfolding is_whitespace
split_words word [] = if is_empty word then [] else word ∷ []
split_words word (c ∷ cs) =
    let apart = split_words [] cs in
    if is_whitespace c
    then (if is_empty word then apart else word ∷ apart)
    else split_words (word ++ c ∷ []) cs

unfoldable pub split_whitespace : Text → List Text
unfolding split_words
split_whitespace cs = split_words [] cs

-- `pieces.join(separator)`
unfoldable pub join : List Text → Text → Text
join [] separator = []
join (t ∷ []) separator = t
join (t ∷ u ∷ ts) separator = t ++ (separator ++ join (u ∷ ts) separator)

-- `&text[k..]`
unfoldable pub from_offset : Text → ℕ → Text
unfolding len_utf8
from_offset cs zero = cs
from_offset [] (suc k) = []
from_offset (c ∷ cs) (suc k) = from_offset cs (suc k - len_utf8 c)

-- `&text[..k]`
unfoldable pub to_offset : Text → ℕ → Text
unfolding len_utf8
to_offset cs zero = []
to_offset [] (suc k) = []
to_offset (c ∷ cs) (suc k) = c ∷ to_offset cs (suc k - len_utf8 c)

-- `&text[start..end]`
unfoldable pub slice : Text → ℕ → ℕ → Text
unfolding from_offset to_offset
slice text start stop = to_offset (from_offset text start) (stop - start)

-- `text.is_char_boundary(k)`
unfoldable pub is_char_boundary : Text → ℕ → Bool
unfolding len_utf8
is_char_boundary cs zero = true
is_char_boundary [] (suc k) = false
is_char_boundary (c ∷ cs) (suc k) =
    if ltb (suc k) (len_utf8 c) then false else is_char_boundary cs (suc k - len_utf8 c)
