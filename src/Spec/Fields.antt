-- ===== src/Spec/Fields.antt =====
-- crates/core/src/types/suggestion.rs: the fields of a suggestion, written and read again.
use autosuggest_core.Base.{
  ◌≡◌, refl, ◌∙◌, ℕ, Bool, true, List, [], ◌∷◌, ◌++◌, Option, none, some, ◌≤◌, inl, leb, arith,
}
use autosuggest_core.Text.{Text, codes, text_eq}
use autosuggest_core.Spec.{StringList, Suggestion}
use autosuggest_core.Spec.Serde.{
  Value, Partial, name_value, optional_field, fields, visit_entry, visit_entries, visit_name,
  assign, names_in, string_in, u8_in, boolean_in, complete_partial, visit_map, nothing_yet,
}

-- The variables with a value for each.
abbrev partial :
    Option StringList
    → Option Text
    → Option Text
    → Option Text
    → Option ℕ
    → Option Bool
    → Option Bool
    → Option Bool
    → Partial
partial name display insert description priority dangerous hidden deprecated = record {
  name = name;
  display_name = display;
  insert_value = insert;
  description = description;
  priority = priority;
  is_dangerous = dangerous;
  hidden = hidden;
  deprecated = deprecated;
}

-- A priority that a `u8` holds.
abbrev pub IsU8 : Option ℕ → Type 0
IsU8 none = Unit
IsU8 (some n) = n ≤ 255

module _ (rest : List (Text × Value)) where
  visit-name :
      (name : StringList)
      → visit_entries nothing_yet ((codes "name", name_value name) ∷ rest)
        ≡ visit_entries (partial (some name) none none none none none none none) rest
  unfolding visit_entries visit_entry visit_name assign names_in name_value text_eq
  visit-name (StringList.one s) = refl
  visit-name (StringList.many ss) = refl

  module _ (name : Option StringList) where
    visit-display_name :
        (o : Option Text)
        → visit_entries
            (partial name none none none none none none none)
            (optional_field (codes "displayName") Value.string o ++ rest)
          ≡ visit_entries (partial name o none none none none none none) rest
    unfolding visit_entries visit_entry assign string_in optional_field text_eq
    visit-display_name none = refl
    visit-display_name (some a) = refl

    module _ (d : Option Text) where
      visit-insert_value :
          (o : Option Text)
          → visit_entries
              (partial name d none none none none none none)
              (optional_field (codes "insertValue") Value.string o ++ rest)
            ≡ visit_entries (partial name d o none none none none none) rest
      unfolding visit_entries visit_entry assign string_in optional_field text_eq
      visit-insert_value none = refl
      visit-insert_value (some a) = refl

      module _ (i : Option Text) where
        visit-description :
            (o : Option Text)
            → visit_entries
                (partial name d i none none none none none)
                (optional_field (codes "description") Value.string o ++ rest)
              ≡ visit_entries (partial name d i o none none none none) rest
        unfolding visit_entries visit_entry assign string_in optional_field text_eq
        visit-description none = refl
        visit-description (some a) = refl

        module _ (e : Option Text) where
          visit-priority :
              (o : Option ℕ)
              → IsU8 o
              → visit_entries
                  (partial name d i e none none none none)
                  (optional_field (codes "priority") Value.number o ++ rest)
                ≡ visit_entries (partial name d i e o none none none) rest
          unfolding visit_entries visit_entry assign u8_in optional_field text_eq
          visit-priority none h = refl
          visit-priority (some n) h =
              let k : leb n 255 ≡ true = ground (arith, h) in
              rw (visit_entries, visit_entry, u8_in, k) refl

          module _ (p : Option ℕ) where
            visit-is_dangerous :
                (o : Option Bool)
                → visit_entries
                    (partial name d i e p none none none)
                    (optional_field (codes "isDangerous") Value.boolean o ++ rest)
                  ≡ visit_entries (partial name d i e p o none none) rest
            unfolding visit_entries visit_entry assign boolean_in optional_field text_eq
            visit-is_dangerous none = refl
            visit-is_dangerous (some a) = refl

            visit-hidden :
                (g o : Option Bool)
                → visit_entries
                    (partial name d i e p g none none)
                    (optional_field (codes "hidden") Value.boolean o ++ rest)
                  ≡ visit_entries (partial name d i e p g o none) rest
            unfolding visit_entries visit_entry assign boolean_in optional_field text_eq
            visit-hidden g none = refl
            visit-hidden g (some a) = refl

            visit-deprecated :
                (g h o : Option Bool)
                → visit_entries
                    (partial name d i e p g h none)
                    (optional_field (codes "deprecated") Value.boolean o ++ rest)
                  ≡ visit_entries (partial name d i e p g h o) rest
            unfolding visit_entries visit_entry assign boolean_in optional_field text_eq
            visit-deprecated g h none = refl
            visit-deprecated g h (some a) = refl

-- The fields as they are written, from one of them on.
module _ (s : Suggestion) where
  abbrev from_deprecated : List (Text × Value)
  from_deprecated = optional_field (codes "deprecated") Value.boolean s.deprecated ++ []

  abbrev from_hidden : List (Text × Value)
  from_hidden = optional_field (codes "hidden") Value.boolean s.hidden ++ from_deprecated

  abbrev from_dangerous : List (Text × Value)
  from_dangerous = optional_field (codes "isDangerous") Value.boolean s.is_dangerous ++ from_hidden

  abbrev from_priority : List (Text × Value)
  from_priority = optional_field (codes "priority") Value.number s.priority ++ from_dangerous

  abbrev from_description : List (Text × Value)
  from_description =
      optional_field (codes "description") Value.string s.description ++ from_priority

  abbrev from_insert : List (Text × Value)
  from_insert = optional_field (codes "insertValue") Value.string s.insert_value ++ from_description

  abbrev from_display : List (Text × Value)
  from_display = optional_field (codes "displayName") Value.string s.display_name ++ from_insert

  visit-fields :
      IsU8 s.priority
      → visit_entries nothing_yet (fields s)
        ≡ inl (
            partial
              (some s.name)
              s.display_name
              s.insert_value
              s.description
              s.priority
              s.is_dangerous
              s.hidden
              s.deprecated)
  unfolding fields visit_entries
  visit-fields h =
      let n = some s.name in
      visit-name from_display s.name
      ∙ visit-display_name from_insert n s.display_name
      ∙ visit-insert_value from_description n s.display_name s.insert_value
      ∙ visit-description from_priority n s.display_name s.insert_value s.description
      ∙ visit-priority from_dangerous n s.display_name s.insert_value s.description s.priority h
      ∙ visit-is_dangerous from_hidden n s.display_name s.insert_value s.description s.priority
          s.is_dangerous
      ∙ visit-hidden from_deprecated n s.display_name s.insert_value s.description s.priority
          s.is_dangerous s.hidden
      ∙ visit-deprecated [] n s.display_name s.insert_value s.description s.priority s.is_dangerous
          s.hidden s.deprecated

  pub visit_map-fields : IsU8 s.priority → visit_map (fields s) ≡ inl s
  unfolding visit_map complete_partial
  visit_map-fields h = rw (visit_map, visit-fields h) refl
