-- ===== src/Output/Lines.antt =====
-- crates/data/src/parse.rs: the lines of an output that prints one suggestion on each.
use autosuggest_core.Base.{
  filter_map, unwrap_or, ◌≡◌, refl, ap, ◌∙◌, ℕ, zero, ◌==◌, Bool, true, false, List, [], ◌∷◌, ◌++◌,
  none, some, any, All, is_empty, Bool-cases, inl, inr, arith,
}
use autosuggest_core.Text.{Text, starts_with, join}
use autosuggest_core.Spec.{Generator}
use autosuggest_core.Output.{
  trim_start, trim_end, Captures, split, split_from, trim, default_split_on, suggestion_of,
  value_of, pieces_of, parse_output,
}

-- A line that no rule of the default options changes: it is not empty, has no line break, and no
-- white space around it.
abbrev pub IsClean : Text → Type 0
IsClean line = (is_empty line ≡ false) × (any (λ c. c == b'\n') line ≡ false) × (trim line ≡ line)

starts_with-newline : (c : ℕ) (cs : Text) → starts_with (c ∷ cs) default_split_on ≡ (c == b'\n')
unfolding starts_with
starts_with-newline c [] = ground arith
starts_with-newline c (d ∷ cs) = ground arith

split-line :
    (line : Text)
    → any (λ c. c == b'\n') line ≡ false
    → split_from default_split_on zero line ≡ line ∷ []
unfolding split_from
split-line [] h = refl
split-line (c ∷ cs) h = elim (Bool-cases (c == b'\n')) [
  | inl e ↦ absurd (let h' = rw e at h in cc)
  | inr e ↦
      let k = starts_with-newline c cs ∙ e in rw (split_from, k, split-line cs (rw e at h)) refl
]

split-lines :
    (line rest : Text)
    → any (λ c. c == b'\n') line ≡ false
    → split_from default_split_on zero (line ++ (default_split_on ++ rest))
      ≡ line ∷ split_from default_split_on zero rest
unfolding split_from starts_with
split-lines [] rest h = refl
split-lines (c ∷ cs) rest h = elim (Bool-cases (c == b'\n')) [
  | inl e ↦ absurd (let h' = rw e at h in cc)
  | inr e ↦
      let k = starts_with-newline c (cs ++ (default_split_on ++ rest)) ∙ e in
      rw (split_from, k, split-lines cs rest (rw e at h)) refl
]

split-join :
    (line : Text) (lines : List Text)
    → All IsClean (line ∷ lines)
    → split_from default_split_on zero (join (line ∷ lines) default_split_on) ≡ line ∷ lines
unfolding join
split-join line [] h = split-line line h.0.1
split-join line (next ∷ lines) h =
    split-lines line (join (next ∷ lines) default_split_on) h.0.1
    ∙ ap (λ ts. line ∷ ts) (split-join next lines h.1)

module _ (engine : Captures) (trims : Bool) where
  suggestion_of-clean :
      (line : Text) → IsClean line → suggestion_of engine trims none line ≡ some line
  unfolding suggestion_of value_of
  suggestion_of-clean line h = elim (Bool-cases trims) [
    | inl e ↦ rw (e, h.2, h.0) refl
    | inr e ↦ rw (e, h.0) refl
  ]

  filter_map-clean :
      (lines : List Text)
      → All IsClean lines
      → filter_map (suggestion_of engine trims none) lines ≡ lines
  filter_map-clean [] h = refl
  filter_map-clean (line ∷ lines) h =
      rw (filter_map, suggestion_of-clean line h.0, filter_map-clean lines h.1) refl

dropped :
    (engine : Captures) (trims : Bool)
    → filter_map (suggestion_of engine trims none) (split_from default_split_on zero []) ≡ []
unfolding suggestion_of value_of split_from trim trim_start trim_end
dropped engine true = refl
dropped engine false = refl

-- A generator without a separator and an expression of its own reads back the suggestions that are
-- printed one on a line, where each is a line that is not empty and has no white space around it.
pub parse_output-join :
    (engine : Captures) (generator : Generator) (lines : List Text)
    → generator.split_on ≡ none
    → generator.extract ≡ none
    → All IsClean lines
    → parse_output engine generator (join lines default_split_on) ≡ lines
unfolding parse_output pieces_of split join
parse_output-join engine generator [] s e h =
    rw (s, e) (dropped engine (unwrap_or generator.trim true))
parse_output-join engine generator (line ∷ lines) s e h =
    rw (s, e, split-join line lines h)
      (filter_map-clean engine (unwrap_or generator.trim true) (line ∷ lines) h)
