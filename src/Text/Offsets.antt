-- ===== src/Text/Offsets.antt =====
-- Byte offsets: slices at the ends of a prefix, and character boundaries.
use autosuggest_core.Base.{ℕ, zero, suc, ◌+◌, ◌-◌, ◌≡◌, refl, ap, true, [], ◌∷◌, ◌++◌, arith, ◌∙◌}
use autosuggest_core.Text.{Text, len_utf8, len, from_offset, to_offset, slice, is_char_boundary}
use autosuggest_core.Text.Laws.{len_utf8-pos}

-- An offset past a character takes or leaves that character.
from_offset_past :
    (c : ℕ) (cs : Text) (k n : ℕ) → len_utf8 c + k ≡ n → from_offset (c ∷ cs) n ≡ from_offset cs k
unfolding from_offset
from_offset_past c cs k zero e = absurd (omega (arith, len_utf8-pos c))
from_offset_past c cs k (suc n) e =
    let q : suc n - len_utf8 c ≡ k = omega arith in rw (q, from_offset)

to_offset_past :
    (c : ℕ) (cs : Text) (k n : ℕ) → len_utf8 c + k ≡ n → to_offset (c ∷ cs) n ≡ c ∷ to_offset cs k
unfolding to_offset
to_offset_past c cs k zero e = absurd (omega (arith, len_utf8-pos c))
to_offset_past c cs k (suc n) e = let q : suc n - len_utf8 c ≡ k = omega arith in rw q

is_char_boundary_past :
    (c : ℕ) (cs : Text) (k n : ℕ)
    → len_utf8 c + k ≡ n
    → is_char_boundary (c ∷ cs) n ≡ is_char_boundary cs k
unfolding is_char_boundary
is_char_boundary_past c cs k zero e = absurd (omega (arith, len_utf8-pos c))
is_char_boundary_past c cs k (suc n) e =
    let q : suc n - len_utf8 c ≡ k = omega arith in rw q (ground arith)

pub from_offset-len : (s t : Text) → from_offset (s ++ t) (len s) ≡ t
unfolding len
from_offset-len [] t = unfold from_offset in refl
from_offset-len (c ∷ cs) t = from_offset_past c (cs ++ t) (len cs) _ refl ∙ from_offset-len cs t

pub to_offset-len : (s t : Text) → to_offset (s ++ t) (len s) ≡ s
unfolding len
to_offset-len [] t = unfold to_offset in refl
to_offset-len (c ∷ cs) t =
    to_offset_past c (cs ++ t) (len cs) _ refl ∙ ap (◌∷◌ c) (to_offset-len cs t)

pub is_char_boundary-len : (s t : Text) → is_char_boundary (s ++ t) (len s) ≡ true
unfolding len
is_char_boundary-len [] t = unfold is_char_boundary in refl
is_char_boundary-len (c ∷ cs) t =
    is_char_boundary_past c (cs ++ t) (len cs) _ refl ∙ is_char_boundary-len cs t

-- The slice between the ends of a piece is the piece.
pub slice_piece :
    (before piece after : Text)
    → slice (before ++ (piece ++ after)) (len before) (len before + len piece) ≡ piece
unfolding slice
slice_piece before piece after =
    let q : len before + len piece - len before ≡ len piece = omega arith in
    rw (from_offset-len before (piece ++ after), q) (to_offset-len piece after)

-- A character boundary is the length of a prefix.
pub is_char_boundary-prefix :
    (t : Text) (k : ℕ) → is_char_boundary t k ≡ true → (s u : Text) × (t ≡ s ++ u) × (len s ≡ k)
unfolding is_char_boundary len
is_char_boundary-prefix t zero h = ([], t, refl, refl)
is_char_boundary-prefix [] (suc k) h = absurd (cc)
is_char_boundary-prefix (c ∷ cs) (suc k) h =
    let (s, u, e, q) = is_char_boundary-prefix cs (suc k - len_utf8 c) (ground arith) in
    (c ∷ s, u, ap (◌∷◌ c) e, ground arith)
