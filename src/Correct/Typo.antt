-- ===== src/Correct/Typo.antt =====
-- crates/core/src/correct/native.rs: which corrections of a subcommand are proposed.
use autosuggest_core.Base.{set, In, ◌≡◌, List, ◌∷◌, false, some, find, any}
use autosuggest_core.Text.{Text, text_eq, join}
use autosuggest_core.Spec.{Subcommand, command, subcommands, has_name}
use autosuggest_core.Correct.Native.{space, known_names}
use autosuggest_core.Correct.Near.{IsNear}

-- `sub` is no name of a subcommand of `spec`, and `c` has a name in its place that is near to it.
abbrev pub FixesName : List Text → Text → Subcommand → Text → Type 0
FixesName toks sub spec c =
    (any (λ n. text_eq n sub) (known_names (subcommands spec)) ≡ false)
    × ((name : Text) × (In name (known_names (subcommands spec))
          × (IsNear sub name × (c ≡ join (set toks 1 name) space))))

-- The second token is fixed by the first spec that has the first token for a name.
abbrev pub FixesSubcommand : List Subcommand → List Text → Text → Type 0
FixesSubcommand specs (base ∷ (sub ∷ rest)) c =
    (spec : Subcommand) × ((find (λ s. has_name (command s).name base) specs ≡ some spec)
      × FixesName (base ∷ (sub ∷ rest)) sub spec c)
FixesSubcommand specs _ c = ⊥
