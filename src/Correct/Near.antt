-- ===== src/Correct/Near.antt =====
-- crates/core/src/correct/native.rs: which commands the native rules propose.
use autosuggest_core.Base.{
  map-In, In-map, In, Bool-cases, ◌≡◌, refl, sym, ap, ◌+◌, ◌∙◌, ◌↔◌, ◌⊎◌, inl, inr, List, [], ◌∷◌,
  ℕ, true, false, ◌≤◌, ◌<◌, here, there, arith, map,
}
use autosuggest_core.Base.Sort.{sort_by, In-sort_by, sort_by-In}
use autosuggest_core.Text.{Text, text_eq, join}
use autosuggest_core.Text.Laws.{eq_of_text_eq}
use autosuggest_core.Levenshtein.{distance}
use autosuggest_core.Correct.Native.{
  tokens, space, count_command, count_commands, is_close, near_commands, nearer, with_token,
  no_command, max_edit_distance,
}
use autosuggest_core.Correct.Types.{CorrectContext, CommandResolver}

-- The name has an entry.
abbrev HasEntry : Text → List (Text × ℕ) → Type 0
HasEntry name freq = (n : ℕ) × In (name, n) freq

-- Both names differ, by at most two edits.
abbrev pub IsNear : Text → Text → Type 0
IsNear a b = (0 < distance a b) × (distance a b ≤ max_edit_distance)

pub is_close_iff : (d : ℕ) → (is_close d ≡ true) ↔ ((0 < d) × (d ≤ max_edit_distance))
unfolding is_close
is_close_iff d = ground arith

count_command-HasEntry :
    (freq : List (Text × ℕ)) (cmd name : Text)
    → HasEntry name (count_command freq cmd)
    → HasEntry name freq ⊎ (name ≡ cmd)
unfolding count_command
count_command-HasEntry [] cmd name (k, here q) = inr (ap (λ p. p.0) q)
count_command-HasEntry [] cmd name (k, there m) = elim m [ ]
count_command-HasEntry ((t, n) ∷ freq) cmd name (k, m) = elim (Bool-cases (text_eq t cmd)) [
  | inl e ↦ counted (rw e at m)
  | inr e ↦ later (count_command-HasEntry freq cmd name) (rw e at m)
]
  where
    counted : In (name, k) ((t, n + 1) ∷ freq) → HasEntry name ((t, n) ∷ freq) ⊎ (name ≡ cmd)
    counted (here q) = inl (n, here (ap (λ p. (p.0, n)) q))
    counted (there j) = inl (k, there j)

    later :
        (HasEntry name (count_command freq cmd) → HasEntry name freq ⊎ (name ≡ cmd))
        → In (name, k) ((t, n) ∷ count_command freq cmd)
        → HasEntry name ((t, n) ∷ freq) ⊎ (name ≡ cmd)
    later ih (here q) = inl (k, here q)
    later ih (there j) = elim (ih (k, j)) [ inl (i, l) ↦ inl (i, there l) | inr q ↦ inr q ]

HasEntry-count_command :
    (freq : List (Text × ℕ)) (cmd name : Text)
    → HasEntry name freq ⊎ (name ≡ cmd)
    → HasEntry name (count_command freq cmd)
unfolding count_command
HasEntry-count_command [] cmd name (inl (k, m)) = elim m [ ]
HasEntry-count_command [] cmd name (inr q) = (1, here (rw q))
HasEntry-count_command ((t, n) ∷ freq) cmd name h = elim (Bool-cases (text_eq t cmd)) [
  | inl e ↦ rw e (counted e h)
  | inr e ↦ rw e (later (HasEntry-count_command freq cmd name) h)
]
  where
    counted :
        text_eq t cmd ≡ true
        → HasEntry name ((t, n) ∷ freq) ⊎ (name ≡ cmd)
        → HasEntry name ((t, n + 1) ∷ freq)
    counted e (inl (k, here q)) = (n + 1, here (ap (λ p. (p.0, n + 1)) q))
    counted e (inl (k, there m)) = (k, there m)
    counted e (inr q) = (n + 1, here (ap (λ x. (x, n + 1)) (q ∙ sym (eq_of_text_eq t cmd e))))

    later :
        (HasEntry name freq ⊎ (name ≡ cmd) → HasEntry name (count_command freq cmd))
        → HasEntry name ((t, n) ∷ freq) ⊎ (name ≡ cmd)
        → HasEntry name ((t, n) ∷ count_command freq cmd)
    later ih (inl (k, here q)) = (k, here q)
    later ih (inl (k, there m)) = (let (i, l) = ih (inl (k, m)) in (i, there l))
    later ih (inr q) = (let (i, l) = ih (inr q) in (i, there l))

count_commands_iff :
    (freq : List (Text × ℕ)) (cmds : List Text) (name : Text)
    → HasEntry name (count_commands freq cmds) ↔ (HasEntry name freq ⊎ In name cmds)
unfolding count_commands
count_commands_iff freq [] name = (inl, back)
  where
    back : HasEntry name freq ⊎ In name [] → HasEntry name freq
    back (inl h) = h
    back (inr m) = elim m [ ]
count_commands_iff freq (cmd ∷ cmds) name = (
  λ h. forth ((count_commands_iff (count_command freq cmd) cmds name).0 h),
  λ h. (count_commands_iff (count_command freq cmd) cmds name).1 (back h),
)
  where
    forth :
        HasEntry name (count_command freq cmd) ⊎ In name cmds
        → HasEntry name freq ⊎ In name (cmd ∷ cmds)
    forth (inl h) = elim (count_command-HasEntry freq cmd name h) [
      | inl k ↦ inl k
      | inr q ↦ inr (here q)
    ]
    forth (inr m) = inr (there m)

    back :
        HasEntry name freq ⊎ In name (cmd ∷ cmds)
        → HasEntry name (count_command freq cmd) ⊎ In name cmds
    back (inl h) = inl (HasEntry-count_command freq cmd name (inl h))
    back (inr (here q)) = inl (HasEntry-count_command freq cmd name (inr q))
    back (inr (there m)) = inr m

-- `name` is listed by `near_commands`.
abbrev IsListed : Text → List (ℕ × ℕ × Text) → Type 0
IsListed name found = (d : ℕ) × ((k : ℕ) × In (d, k, name) found)

near_commands-IsNear :
    (base : Text) (freq : List (Text × ℕ)) (d k : ℕ) (name : Text)
    → In (d, k, name) (near_commands base freq)
    → HasEntry name freq × IsNear base name
unfolding near_commands
near_commands-IsNear base [] d k name m = elim m [ ]
near_commands-IsNear base ((t, n) ∷ freq) d k name m =
    elim (Bool-cases (is_close (distance base t))) [
      | inl e ↦ step e (near_commands-IsNear base freq d k name) (rw e at m)
      | inr e ↦ later (near_commands-IsNear base freq d k name (rw e at m))
    ]
  where
    later : HasEntry name freq × IsNear base name → HasEntry name ((t, n) ∷ freq) × IsNear base name
    later ((i, j), c) = ((i, there j), c)

    step :
        is_close (distance base t) ≡ true
        → (In (d, k, name) (near_commands base freq) → HasEntry name freq × IsNear base name)
        → In (d, k, name) ((distance base t, n, t) ∷ near_commands base freq)
        → HasEntry name ((t, n) ∷ freq) × IsNear base name
    step e ih (here q) =
        let r : name ≡ t = ap (λ p. p.2) q in
        rw r ((n, here refl), (is_close_iff (distance base t)).0 e)
    step e ih (there j) = later (ih j)

IsNear-near_commands :
    (base : Text) (freq : List (Text × ℕ)) (name : Text) (k : ℕ)
    → In (name, k) freq
    → IsNear base name
    → IsListed name (near_commands base freq)
unfolding near_commands
IsNear-near_commands base [] name k m c = elim m [ ]
IsNear-near_commands base ((t, n) ∷ freq) name k (here q) c =
    let r : t ≡ name = sym (ap (λ p. p.0) q) in
    let e : is_close (distance base t) ≡ true = rw r ((is_close_iff (distance base name)).1 c) in
    rw e (distance base t, (n, here (ap (λ x. (distance base t, n, x)) (sym r))))
IsNear-near_commands base ((t, n) ∷ freq) name k (there m) c =
    let (d, (i, j)) = IsNear-near_commands base freq name k m c in
    elim (Bool-cases (is_close (distance base t))) [
      | inl e ↦ rw e (d, (i, there j))
      | inr e ↦ rw e (d, (i, j))
    ]

-- `c` is the failed command line with its first token replaced by a command on the path that is near
-- to it, where that token is no command itself.
abbrev pub FixesCommand : CommandResolver → List Text → Text → Type 0
FixesCommand resolver [] c = ⊥
FixesCommand resolver (base ∷ rest) c =
    (resolver.exists base ≡ false)
    × ((name : Text) × (In name resolver.path_commands
          × (IsNear base name × (c ≡ join (name ∷ rest) space))))

-- The fixes that `no_command` makes where the first token `base` is no command.
abbrev fixes : CommandResolver → Text → List Text → List Text
fixes resolver base rest =
    map (λ (r : ℕ × ℕ × Text). with_token (base ∷ rest) 0 r.2)
      (sort_by nearer (near_commands base (count_commands [] resolver.path_commands)))

fixes-IsNear :
    (resolver : CommandResolver) (base : Text) (rest : List Text) (c : Text)
    → In c (fixes resolver base rest)
    → (name : Text) × (In name resolver.path_commands
        × (IsNear base name × (c ≡ join (name ∷ rest) space)))
unfolding with_token
fixes-IsNear resolver base rest c m =
    let freq = count_commands [] resolver.path_commands in
    let ((d, k, name), n, q) =
      In-map (λ (r : ℕ × ℕ × Text). with_token (base ∷ rest) 0 r.2)
        (sort_by nearer (near_commands base freq)) m in
    let (h, near) =
      near_commands-IsNear base freq d k name (In-sort_by nearer (near_commands base freq) n) in
    (name, (listed ((count_commands_iff [] resolver.path_commands name).0 h), (near, q)))
  where
    listed :
        {name : Text}
        → HasEntry name [] ⊎ In name resolver.path_commands
        → In name resolver.path_commands
    listed (inl (k, m)) = elim m [ ]
    listed (inr m) = m

IsNear-fixes :
    (resolver : CommandResolver) (base : Text) (rest : List Text) (name : Text)
    → In name resolver.path_commands
    → IsNear base name
    → In (join (name ∷ rest) space) (fixes resolver base rest)
unfolding with_token
IsNear-fixes resolver base rest name m near =
    let freq = count_commands [] resolver.path_commands in
    let (n, h) = (count_commands_iff [] resolver.path_commands name).1 (inr m) in
    let (d, (k, j)) = IsNear-near_commands base freq name n h near in
    map-In (λ (r : ℕ × ℕ × Text). with_token (base ∷ rest) 0 r.2)
      (sort_by nearer (near_commands base freq)) (sort_by-In nearer (near_commands base freq) j)

-- `no_command` proposes exactly the command lines whose first token, which is no command, is replaced
-- by a command of the path at one or two edits from it.
pub no_command-FixesCommand :
    (ctx : CorrectContext) (resolver : CommandResolver) (c : Text)
    → In c (no_command ctx resolver) ↔ FixesCommand resolver (tokens ctx.script) c
unfolding no_command
no_command-FixesCommand ctx resolver c = step (tokens ctx.script) refl
  where
    step :
        (toks : List Text)
        → tokens ctx.script ≡ toks
        → In c (no_command ctx resolver) ↔ FixesCommand resolver toks c
    step [] q = rw (no_command, q) (λ m. elim m [ ], λ h. elim h [ ])
    step (base ∷ rest) q = elim (Bool-cases (resolver.exists base)) [
      | inl e ↦ rw (no_command, q, e) (λ m. elim m [ ], λ h. absurd (let k = h.0 in cc))
      | inr e ↦
          rw (no_command, q, e)
            (
              λ m. (refl, fixes-IsNear resolver base rest c m),
              λ (u, (name, (m, (near, w)))). rw w (IsNear-fixes resolver base rest name m near),
            )
    ]
