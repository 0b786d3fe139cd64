-- ===== src/Tests/Spec.antt =====
-- crates/core/src/types/suggestion.rs at concrete suggestions.
use autosuggest_core.Base.{◌≡◌, refl, false, [], ◌∷◌, some, inl, inr, arith}
use autosuggest_core.Text.{codes}
use autosuggest_core.Spec.{Suggestion, from_name}
use autosuggest_core.Spec.Serde.{Value, Document, Mistake, serialize, deserialize}
use autosuggest_core.Spec.RoundTrip.{deserialize-serialize}

abbrev checkout : Suggestion
checkout = record (from_name (codes "checkout")) {
  insert_value = some (codes "checkout ");
  priority = some 75;
  is_dangerous = some false;
}

bare_test : serialize (from_name (codes "checkout")) ≡ Document.bare (codes "checkout")
unfolding serialize from_name
bare_test = refl

no_name_test : deserialize (Document.object []) ≡ inr Mistake.missing_name
unfolding deserialize
no_name_test = refl

-- The later of two values of a key counts, but a second name is an error.
twice_test :
    deserialize (
      Document.object ((codes "name", Value.string (codes "a")) ∷ (codes "name", Value.other) ∷ []))
    ≡ inr Mistake.duplicate_name
unfolding deserialize
twice_test = refl

deserialize-serialize_example : deserialize (serialize checkout) ≡ inl checkout
unfolding from_name
deserialize-serialize_example = deserialize-serialize checkout (omega arith)
