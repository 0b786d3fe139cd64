-- ===== src/Spec/Serde.antt =====
-- crates/core/src/types/suggestion.rs and string_list.rs: a suggestion as JSON, in both directions.
-- JSON is what serde shows of it: a bare string, an object with its keys in their order, or neither.
-- Of the values, those that a field of a suggestion can have are told apart.
use autosuggest_core.Base.{
  ℕ, Bool, true, false, not, ◌&&◌, List, [], ◌∷◌, ◌++◌, Option, none, some, ◌⊎◌, inl, inr, is_some,
  leb, if◌then◌else◌,
}
use autosuggest_core.Text.{Text, codes, text_eq}
use autosuggest_core.Spec.{StringList, Suggestion, canonical, from_name}

pub data Value : Type 0 where
  string : Text → Value
  strings : List Text → Value
  number : ℕ → Value
  boolean : Bool → Value
  other : Value

pub data Document : Type 0 where
  bare : Text → Document
  object : List (Text × Value) → Document
  neither : Document

pub data Mistake : Type 0 where
  duplicate_name missing_name invalid_type : Mistake

abbrev pub is_one : StringList → Bool
is_one (StringList.one s) = true
is_one (StringList.many ss) = false

unfoldable pub is_pure_shorthand : Suggestion → Bool
is_pure_shorthand s =
    is_one s.name
    && not (is_some s.display_name)
    && not (is_some s.insert_value)
    && not (is_some s.description)
    && not (is_some s.priority)
    && not (is_some s.is_dangerous)
    && not (is_some s.hidden)
    && not (is_some s.deprecated)

-- The derived `Serialize` of `StringList`, which is untagged.
unfoldable pub name_value : StringList → Value
name_value (StringList.one s) = Value.string s
name_value (StringList.many ss) = Value.strings ss

-- A field that is written if it is present.
unfoldable pub optional_field : {A : Type 0} → Text → (A → Value) → Option A → List (Text × Value)
optional_field key value none = []
optional_field key value (some a) = (key, value a) ∷ []

unfoldable pub fields : Suggestion → List (Text × Value)
unfolding name_value optional_field
fields s =
    (codes "name", name_value s.name)
    ∷ (optional_field (codes "displayName") Value.string s.display_name
        ++ (optional_field (codes "insertValue") Value.string s.insert_value
            ++ (optional_field (codes "description") Value.string s.description
                ++ (optional_field (codes "priority") Value.number s.priority
                    ++ (optional_field (codes "isDangerous") Value.boolean s.is_dangerous
                        ++ (optional_field (codes "hidden") Value.boolean s.hidden
                            ++ (optional_field (codes "deprecated") Value.boolean s.deprecated
                                ++ [])))))))

unfoldable pub serialize : Suggestion → Document
unfolding is_pure_shorthand canonical fields
serialize s =
    if is_pure_shorthand s then Document.bare (canonical s.name) else Document.object (fields s)

-- The variables of `visit_map`.
pub record Partial : Type 0 where
  pub name : Option StringList
  pub display_name : Option Text
  pub insert_value : Option Text
  pub description : Option Text
  pub priority : Option ℕ
  pub is_dangerous : Option Bool
  pub hidden : Option Bool
  pub deprecated : Option Bool

abbrev pub nothing_yet : Partial
nothing_yet = record {
  name = none;
  display_name = none;
  insert_value = none;
  description = none;
  priority = none;
  is_dangerous = none;
  hidden = none;
  deprecated = none;
}

-- `map.next_value()` at the types of the fields.
unfoldable pub names_in : Value → Option StringList
names_in (Value.string s) = some (StringList.one s)
names_in (Value.strings ss) = some (StringList.many ss)
names_in _ = none

unfoldable pub string_in : Value → Option Text
string_in (Value.string s) = some s
string_in _ = none

unfoldable pub u8_in : Value → Option ℕ
u8_in (Value.number n) = if leb n 255 then some n else none
u8_in _ = none

unfoldable pub boolean_in : Value → Option Bool
boolean_in (Value.boolean b) = some b
boolean_in _ = none

-- `Some(map.next_value()?)`, and what the assignment makes of the variables.
unfoldable pub assign : {A : Type 0} → Option A → (A → Partial) → Partial ⊎ Mistake
assign none to = inr Mistake.invalid_type
assign (some a) to = inl (to a)

unfoldable pub visit_name : Partial → Value → Partial ⊎ Mistake
unfolding assign names_in
visit_name p value =
    if is_some p.name
    then inr Mistake.duplicate_name
    else assign (names_in value) (λ a. record p { name = some a })

-- The body of the loop.
unfoldable pub visit_entry : Partial → Text × Value → Partial ⊎ Mistake
unfolding assign visit_name string_in u8_in boolean_in text_eq
visit_entry p (key, value) =
    if text_eq key (codes "name")
    then visit_name p value
    else if text_eq key (codes "displayName")
    then assign (string_in value) (λ a. record p { display_name = some a })
    else if text_eq key (codes "insertValue")
    then assign (string_in value) (λ a. record p { insert_value = some a })
    else if text_eq key (codes "description")
    then assign (string_in value) (λ a. record p { description = some a })
    else if text_eq key (codes "priority")
    then assign (u8_in value) (λ a. record p { priority = some a })
    else if text_eq key (codes "isDangerous")
    then assign (boolean_in value) (λ a. record p { is_dangerous = some a })
    else if text_eq key (codes "hidden")
    then assign (boolean_in value) (λ a. record p { hidden = some a })
    else if text_eq key (codes "deprecated")
    then assign (boolean_in value) (λ a. record p { deprecated = some a })
    else inl p

unfoldable pub visit_entries : Partial → List (Text × Value) → Partial ⊎ Mistake
unfolding visit_entry
visit_entries p [] = inl p
visit_entries p (entry ∷ entries) = elim (visit_entry p entry) [
  | inr e ↦ inr e
  | inl q ↦ visit_entries q entries
]

-- Behind the loop.
unfoldable pub complete_partial : Partial → Suggestion ⊎ Mistake
complete_partial p = elim p.name [
  | none ↦ inr Mistake.missing_name
  | some name ↦ inl (record {
    name = name;
    display_name = p.display_name;
    insert_value = p.insert_value;
    description = p.description;
    priority = p.priority;
    is_dangerous = p.is_dangerous;
    hidden = p.hidden;
    deprecated = p.deprecated;
  })
]

unfoldable pub visit_map : List (Text × Value) → Suggestion ⊎ Mistake
unfolding visit_entries complete_partial
visit_map entries = elim (visit_entries nothing_yet entries) [
  | inr e ↦ inr e
  | inl p ↦ complete_partial p
]

unfoldable pub deserialize : Document → Suggestion ⊎ Mistake
unfolding visit_map from_name
deserialize (Document.bare s) = inl (from_name s)
deserialize (Document.object entries) = visit_map entries
deserialize Document.neither = inr Mistake.invalid_type
