-- ===== src/Text/Laws.antt =====
-- Equality, prefixes and searches of texts.
use autosuggest_core.Base.{
  ℕ, ◌+◌, ◌≤◌, ◌<◌, ◌≡◌, ◌↔◌, refl, true, false, [], ◌∷◌, ◌++◌, Ordering, arith, Bool-cases, inl,
  inr, ap,
}
use autosuggest_core.Base.Sort.{not_gt, reverse_order}
use autosuggest_core.Text.{
  Text, len_utf8, len, text_eq, text_cmp, starts_with, contains, lead_byte, is_whitespace,
}

pub text_eq_refl : (s : Text) → text_eq s s ≡ true
unfolding text_eq
text_eq_refl [] = refl
text_eq_refl (c ∷ cs) = ground (arith, text_eq_refl cs)

pub eq_of_text_eq : (s t : Text) → text_eq s t ≡ true → s ≡ t
unfolding text_eq
eq_of_text_eq [] [] h = refl
eq_of_text_eq [] (d ∷ ds) h = absurd (cc)
eq_of_text_eq (c ∷ cs) [] h = absurd (cc)
eq_of_text_eq (c ∷ cs) (d ∷ ds) h = ground (arith, eq_of_text_eq cs ds)

pub text_eq_iff : (s t : Text) → (text_eq s t ≡ true) ↔ (s ≡ t)
text_eq_iff s t = (eq_of_text_eq s t, λ e. rw e (text_eq_refl t))

-- A text starts with exactly the texts that something completes to it.
pub starts_with-append : (p t : Text) → starts_with (p ++ t) p ≡ true
unfolding starts_with
starts_with-append [] t = refl
starts_with-append (c ∷ cs) t = ground (arith, starts_with-append cs t)

pub starts_with-rest : (s p : Text) → starts_with s p ≡ true → (t : Text) × (s ≡ p ++ t)
unfolding starts_with
starts_with-rest s [] h = (s, refl)
starts_with-rest [] (p ∷ ps) h = absurd (cc)
starts_with-rest (c ∷ cs) (p ∷ ps) h =
    let e : c ≡ p = ground arith in
    let (t, q) = starts_with-rest cs ps (ground arith) in (t, ground arith)

pub len_utf8-pos : (c : ℕ) → 0 < len_utf8 c
unfolding len_utf8
len_utf8-pos c = ground arith

pub len-append : (s t : Text) → len (s ++ t) ≡ len s + len t
unfolding len
len-append [] t = omega arith
len-append (c ∷ cs) t = omega (arith, len-append cs t)

-- No first byte of a longer encoding is whitespace when it is read as a character.
pub lead_byte-ascii : (c : ℕ) → 0x80 ≤ c → c < 0x110000 → is_whitespace (lead_byte c) ≡ false
unfolding lead_byte is_whitespace
lead_byte-ascii c h k = ground arith

pub text_cmp_refl : (s : Text) → text_cmp s s ≡ Ordering.eq
unfolding text_cmp
text_cmp_refl [] = refl
text_cmp_refl (c ∷ cs) = ground (arith, text_cmp_refl cs)

pub eq_of_text_cmp : (s t : Text) → text_cmp s t ≡ Ordering.eq → s ≡ t
unfolding text_cmp
eq_of_text_cmp [] [] h = refl
eq_of_text_cmp [] (d ∷ ds) h = absurd (cc)
eq_of_text_cmp (c ∷ cs) [] h = absurd (cc)
eq_of_text_cmp (c ∷ cs) (d ∷ ds) h = ground (arith, eq_of_text_cmp cs ds)

pub text_cmp_flip : (s t : Text) → text_cmp t s ≡ reverse_order (text_cmp s t)
unfolding text_cmp
text_cmp_flip [] [] = refl
text_cmp_flip [] (d ∷ ds) = refl
text_cmp_flip (c ∷ cs) [] = refl
text_cmp_flip (c ∷ cs) (d ∷ ds) = ground (arith, text_cmp_flip cs ds)

pub text_cmp_trans :
    (s t u : Text)
    → not_gt (text_cmp s t) ≡ true
    → not_gt (text_cmp t u) ≡ true
    → not_gt (text_cmp s u) ≡ true
unfolding text_cmp
text_cmp_trans [] [] [] h k = refl
text_cmp_trans [] t (d ∷ ds) h k = refl
text_cmp_trans [] (d ∷ ds) [] h k = absurd (cc)
text_cmp_trans (c ∷ cs) [] u h k = absurd (cc)
text_cmp_trans (c ∷ cs) (d ∷ ds) [] h k = absurd (cc)
text_cmp_trans (c ∷ cs) (d ∷ ds) (e ∷ es) h k = ground (arith, text_cmp_trans cs ds es)

-- `part` occurs in `s`.
abbrev pub Occurs : Text → Text → Type 0
Occurs part s = (before : Text) × ((after : Text) × (s ≡ before ++ (part ++ after)))

pub contains-Occurs : (s part : Text) → contains s part ≡ true → Occurs part s
unfolding contains
contains-Occurs [] part h = let (t, q) = starts_with-rest [] part h in ([], (t, q))
contains-Occurs (c ∷ cs) part h = elim (Bool-cases (starts_with (c ∷ cs) part)) [
  | inl e ↦ (let (t, q) = starts_with-rest (c ∷ cs) part e in ([], (t, q)))
  | inr e ↦ let (b, (a, q)) = contains-Occurs cs part (rw e at h) in (c ∷ b, (a, ap (λ t. c ∷ t) q))
]

contains_after : (before part after : Text) → contains (before ++ (part ++ after)) part ≡ true
unfolding contains
contains_after [] [] [] = starts_with-append [] []
contains_after [] (p ∷ ps) after = rw (starts_with-append (p ∷ ps) after) refl
contains_after [] [] (c ∷ cs) = rw (starts_with-append [] (c ∷ cs)) refl
contains_after (c ∷ cs) part after =
    elim (Bool-cases (starts_with (c ∷ (cs ++ (part ++ after))) part)) [
      | inl e ↦ rw e refl
      | inr e ↦ rw e (contains_after cs part after)
    ]

pub Occurs-contains : (s part : Text) → Occurs part s → contains s part ≡ true
Occurs-contains s part (b, (a, q)) = rw q (contains_after b part a)
