-- ===== src/Correct/Native.antt =====
-- crates/core/src/correct/native.rs: the rules that are implemented in code.
use autosuggest_core.Base.{
  ℕ, ◌+◌, compare, Ordering, Bool, ◌&&◌, List, [], ◌∷◌, ◌++◌, map, none, some, ltb, leb,
  if◌then◌else◌, set, any, find,
}
use autosuggest_core.Base.Sort.{sort_by, then_with}
use autosuggest_core.Text.{Text, text_eq, text_cmp, split_whitespace, join}
use autosuggest_core.Spec.{Subcommand, command, subcommands, has_name, all_names}
use autosuggest_core.Levenshtein.{distance}
use autosuggest_core.Correct.Types.{CorrectContext, CommandResolver}

abbrev pub max_edit_distance : ℕ
max_edit_distance = 2

abbrev pub space : Text
space = b' ' ∷ []

unfoldable pub tokens : Text → List Text
unfolding split_whitespace
tokens script = split_whitespace script

-- `*freq.entry(cmd).or_insert(0) += 1`. The map is a list of its entries: their order is lost when
-- the ranking sorts them.
unfoldable pub count_command : List (Text × ℕ) → Text → List (Text × ℕ)
unfolding text_eq
count_command [] cmd = (cmd, 1) ∷ []
count_command ((name, n) ∷ freq) cmd =
    if text_eq name cmd then (name, n + 1) ∷ freq else (name, n) ∷ count_command freq cmd

unfoldable pub count_commands : List (Text × ℕ) → List Text → List (Text × ℕ)
unfolding count_command
count_commands freq [] = freq
count_commands freq (cmd ∷ cmds) = count_commands (count_command freq cmd) cmds

-- A distance that a suggestion may have.
unfoldable pub is_close : ℕ → Bool
is_close d = leb d max_edit_distance && ltb 0 d

-- The `filter_map` of `no_command`.
unfoldable pub near_commands : Text → List (Text × ℕ) → List (ℕ × ℕ × Text)
unfolding is_close distance
near_commands base [] = []
near_commands base ((name, n) ∷ freq) =
    let d = distance base name in
    let rest = near_commands base freq in if is_close d then (d, n, name) ∷ rest else rest

-- By ascending distance, descending frequency, and name.
unfoldable pub nearer : ℕ × ℕ × Text → ℕ × ℕ × Text → Ordering
unfolding text_cmp
nearer (d, n, name) (d', n', name') =
    then_with (compare d d') (then_with (compare n' n) (text_cmp name name'))

-- `owned[index] = name; join(&owned)`
unfoldable pub with_token : List Text → ℕ → Text → Text
unfolding join
with_token toks index name = join (set toks index name) space

unfoldable pub no_command : CorrectContext → CommandResolver → List Text
unfolding tokens count_commands near_commands nearer with_token sort_by
no_command ctx resolver = elim (tokens ctx.script) [
  | [] ↦ []
  | base ∷ rest ↦
      if resolver.exists base
      then []
      else map (λ (r : ℕ × ℕ × Text). with_token (base ∷ rest) 0 r.2)
          (sort_by nearer (near_commands base (count_commands [] resolver.path_commands)))
]

-- The names and aliases of the subcommands.
unfoldable pub known_names : List Subcommand → List Text
unfolding all_names
known_names [] = []
known_names (s ∷ ss) = all_names (command s).name ++ known_names ss

-- The `filter_map` of `subcommand_typo`.
unfoldable pub near_names : Text → List Text → List (ℕ × Text)
unfolding is_close distance
near_names sub [] = []
near_names sub (name ∷ names) =
    let d = distance sub name in
    let rest = near_names sub names in if is_close d then (d, name) ∷ rest else rest

unfoldable pub nearer_name : ℕ × Text → ℕ × Text → Ordering
unfolding text_cmp
nearer_name (d, name) (d', name') = then_with (compare d d') (text_cmp name name')

-- `subcommand_typo`, where the spec of the base command was found.
unfoldable pub near_subcommands : List Text → Text → Subcommand → List Text
unfolding known_names near_names nearer_name with_token sort_by text_eq
near_subcommands toks sub spec =
    let known = known_names (subcommands spec) in
    if any (λ n. text_eq n sub) known
    then []
    else map (λ (r : ℕ × Text). with_token toks 1 r.1) (sort_by nearer_name (near_names sub known))

unfoldable pub subcommand_typo : CorrectContext → List Subcommand → List Text
unfolding tokens has_name near_subcommands
subcommand_typo ctx specs = elim (tokens ctx.script) [
  | [] ↦ []
  | base ∷ [] ↦ []
  | base ∷ (sub ∷ rest) ↦ elim (find (λ s. has_name (command s).name base) specs) [
    | none ↦ []
    | some spec ↦ near_subcommands (base ∷ (sub ∷ rest)) sub spec
  ]
]
