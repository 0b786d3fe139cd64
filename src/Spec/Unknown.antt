-- ===== src/Spec/Unknown.antt =====
-- crates/core/src/types/suggestion.rs: the keys of an object that a suggestion does not have.
use autosuggest_core.Base.{◌≡◌, refl, false, List, [], ◌∷◌, ◌++◌, ◌⊎◌, inl, inr, All}
use autosuggest_core.Text.{Text, codes, text_eq}
use autosuggest_core.Spec.Serde.{
  Value, Document, Mistake, Partial, visit_entry, visit_entries, visit_map, deserialize,
  nothing_yet,
}

abbrev pub known_keys : List Text
known_keys =
    codes "name"
    ∷ codes "displayName"
    ∷ codes "insertValue"
    ∷ codes "description"
    ∷ codes "priority"
    ∷ codes "isDangerous"
    ∷ codes "hidden"
    ∷ codes "deprecated"
    ∷ []

abbrev pub IsUnknown : Text → Type 0
IsUnknown key = All (λ k. text_eq key k ≡ false) known_keys

visit_entry-unknown :
    (p : Partial) (key : Text) (value : Value) → IsUnknown key → visit_entry p (key, value) ≡ inl p
unfolding visit_entry
visit_entry-unknown p key value (a, (b, (c, (d, (e, (f, (g, (h, _)))))))) =
    rw (a, b, c, d, e, f, g, h) refl

visit_entries-unknown :
    (key : Text) (value : Value) (before after : List (Text × Value)) (p : Partial)
    → IsUnknown key
    → visit_entries p (before ++ (key, value) ∷ after) ≡ visit_entries p (before ++ after)
unfolding visit_entries
visit_entries-unknown key value [] after p h =
    rw (visit_entries, visit_entry-unknown p key value h) refl
visit_entries-unknown key value (entry ∷ before) after p h =
    go (visit_entry p entry) (λ q. visit_entries-unknown key value before after q h)
  where
    go :
        (r : Partial ⊎ Mistake)
        → ((q : Partial)
            → visit_entries q (before ++ (key, value) ∷ after) ≡ visit_entries q (before ++ after))
        → (elim r [ inr e ↦ inr e | inl q ↦ visit_entries q (before ++ (key, value) ∷ after) ])
          ≡ (elim r [ inr e ↦ inr e | inl q ↦ visit_entries q (before ++ after) ])
    go (inl q) next = next q
    go (inr e) next = refl

-- An entry of an object whose key is none of a suggestion's does not matter, wherever it stands and
-- whatever its value is.
pub deserialize-unknown :
    (key : Text) (value : Value) (before after : List (Text × Value))
    → IsUnknown key
    → deserialize (Document.object (before ++ (key, value) ∷ after))
      ≡ deserialize (Document.object (before ++ after))
unfolding deserialize visit_map
deserialize-unknown key value before after h =
    rw (visit_map, visit_entries-unknown key value before after nothing_yet h) refl
