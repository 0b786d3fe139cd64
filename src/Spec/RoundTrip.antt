-- ===== src/Spec/RoundTrip.antt =====
-- crates/core/src/types/suggestion.rs: a suggestion that is written and read again.
use autosuggest_core.Base.{
  ◌≡◌, refl, sym, ap, true, not, Option, none, some, is_some, inl, inr, Bool-cases, arith,
}
use autosuggest_core.Spec.{StringList, Suggestion, canonical, from_name}
use autosuggest_core.Spec.Serde.{is_one, is_pure_shorthand, serialize, deserialize}
use autosuggest_core.Spec.Fields.{IsU8, visit_map-fields}

none_of {ℓ} : {A : Type ℓ} (o : Option A) → not (is_some o) ≡ true → o ≡ none
none_of none h = refl
none_of (some a) h = absurd (cc)

one_of : (name : StringList) → is_one name ≡ true → StringList.one (canonical name) ≡ name
unfolding canonical
one_of (StringList.one t) h = refl
one_of (StringList.many ts) h = absurd (cc)

shorthand_lem : (s : Suggestion) → is_pure_shorthand s ≡ true → from_name (canonical s.name) ≡ s
unfolding is_pure_shorthand from_name canonical
shorthand_lem s h =
    let e0 = one_of s.name (ground (arith, h)) in
    let e1 = sym (none_of s.display_name (ground (arith, h))) in
    let e2 = sym (none_of s.insert_value (ground (arith, h))) in
    let e3 = sym (none_of s.description (ground (arith, h))) in
    let e4 = sym (none_of s.priority (ground (arith, h))) in
    let e5 = sym (none_of s.is_dangerous (ground (arith, h))) in
    let e6 = sym (none_of s.hidden (ground (arith, h))) in
    let e7 = sym (none_of s.deprecated (ground (arith, h))) in
    λ j. record {
      name = e0 j;
      display_name = e1 j;
      insert_value = e2 j;
      description = e3 j;
      priority = e4 j;
      is_dangerous = e5 j;
      hidden = e6 j;
      deprecated = e7 j;
    }

-- A suggestion whose priority, if it has one, is a `u8` is read as itself when it is written as JSON,
-- in its short form or as an object.
pub deserialize-serialize : (s : Suggestion) → IsU8 s.priority → deserialize (serialize s) ≡ inl s
unfolding deserialize serialize
deserialize-serialize s h = elim (Bool-cases (is_pure_shorthand s)) [
  | inl e ↦ rw e (ap inl (shorthand_lem s e))
  | inr e ↦ rw e (visit_map-fields s h)
]
