-- ===== src/Parse/Seen.antt =====
-- The options of a parse: those seen, and the one that waits for its value.
use autosuggest_core.Base.{
  drop, ◌≡◌, inl, inr, refl, sym, subst, Bool, true, false, List, [], ◌∷◌, ◌++◌, Option, none, some,
  last, is_empty, ◌&&◌, not, All, All-map, In, here, there, In-append, In-append_left, find-In,
  In-filter, arith, Bool-cases, Option-cases, append-nil,
}
use autosuggest_core.Parse.{
  Walk, has_args, record_option, consume_inline, consume_cluster, consume_plain, consume_form,
  consume_option, descend_or_advance, consume_word, initial, walk, parse,
}
use autosuggest_core.Parse.Lookup.{
  find_option, local_option, collect_persistent, canonical_opt, is_seen, mark_seen, lookup_option,
}
use autosuggest_core.Text.{Text}
use autosuggest_core.Text.Laws.{text_eq_refl}
use autosuggest_core.Spec.{Subcommand, Opt, options}
use autosuggest_core.Tokenize.{Token}
use autosuggest_core.Parse.Path.{walk-Kept}
use autosuggest_core.Parse.Inherited.{inherited, Inherits, descend_or_advance-Inherits}

-- `opt` is an option of a node of the path.
abbrev pub Declares : List Subcommand → Opt → Type 0
Declares path opt = (n : Subcommand) × In n path × In opt (options n)

abbrev pub IsKnown : List Subcommand → Text → Type 0
IsKnown path name = (opt : Opt) × Declares path opt × (name ≡ canonical_opt opt)

-- An option that waits for a value takes one, is declared and is seen.
abbrev pub Pending : List Subcommand → List Text → Option Opt → Type 0
Pending path seen none = Unit {0}
Pending path seen (some opt) =
    (has_args opt ≡ true) × Declares path opt × (is_seen seen (canonical_opt opt) ≡ true)

In-last : {n : Subcommand} (path : List Subcommand) → last path ≡ some n → In n path
In-last [] e = absurd (cc)
In-last (m ∷ []) e = here (ground arith)
In-last (m ∷ k ∷ path) e = there (In-last (k ∷ path) e)

In-inherited : {opt : Opt} (path : List Subcommand) → In opt (inherited path) → Declares path opt
unfolding inherited collect_persistent
In-inherited [] m = elim m [ ]
In-inherited (n ∷ path) m = elim (In-append (collect_persistent n) (inherited path) m) [
  | inl h ↦ (n, here refl, (In-filter _ (options n) h).0)
  | inr h ↦ let (k, i, o) = In-inherited path h in (k, there i, o)
]

local_option-Declares :
    (path : List Subcommand) (form : Text) {opt : Opt}
    → local_option (last path) form ≡ some opt
    → Declares path opt
local_option-Declares path form {opt} e = go (last path) refl e
  where
    go :
        (o : Option Subcommand) → last path ≡ o → local_option o form ≡ some opt → Declares path opt
    go none q e' = unfold local_option in absurd (cc)
    go (some n) q e' = unfold local_option in (n, In-last path q, (find-In _ (options n) e').0)

lookup_option-Declares :
    (w : Walk) (form : Text) {opt : Opt}
    → Inherits w
    → lookup_option w.path w.persistent form ≡ some opt
    → Declares w.path opt
unfolding lookup_option
lookup_option-Declares w form h e = elim (Option-cases (local_option (last w.path) form)) [
  | inl q ↦
      let e' : find_option w.persistent form ≡ some _ = ground arith in
      In-inherited w.path (subst (In _) h (find-In _ w.persistent e').0)
  | inr (o, q) ↦ local_option-Declares w.path form (ground arith)
]

-- What holds of the options at each point of the walk.
record OptionsKnown (w : Walk) : Type 0 where
  inherits : Inherits w
  known : All (IsKnown w.path) w.seen
  pending : Pending w.path w.seen w.pending_arg

is_seen-mark_seen_self :
    (seen : List Text) (name : Text) → is_seen (mark_seen seen name) name ≡ true
unfolding mark_seen
is_seen-mark_seen_self seen name = elim (Bool-cases (is_seen seen name)) [
  | inl e ↦ rw e e
  | inr e ↦ rw (e, is_seen, text_eq_refl name)
]

is_seen-mark_seen :
    (seen : List Text) (a b : Text) → is_seen seen a ≡ true → is_seen (mark_seen seen b) a ≡ true
unfolding mark_seen
is_seen-mark_seen seen a b h = ground arith

All-mark_seen :
    (P : Text → Type 0) (seen : List Text) (name : Text)
    → P name
    → All P seen
    → All P (mark_seen seen name)
unfolding mark_seen
All-mark_seen P seen name p h = elim (Bool-cases (is_seen seen name)) [
  | inl e ↦ rw e h
  | inr e ↦ rw e (p, h)
]

Pending-mark_seen :
    (path : List Subcommand) (seen : List Text) (name : Text) (o : Option Opt)
    → Pending path seen o
    → Pending path (mark_seen seen name) o
Pending-mark_seen path seen name none h = tt
Pending-mark_seen path seen name (some opt) (a, d, s) = (a, d, is_seen-mark_seen seen _ name s)

record_option-OptionsKnown :
    (pends : Opt → Bool) (o : Option Opt) (w : Walk)
    → ((opt : Opt) → o ≡ some opt → Declares w.path opt)
    → ((opt : Opt) → pends opt ≡ true → has_args opt ≡ true)
    → OptionsKnown w
    → OptionsKnown (record_option pends o w)
unfolding record_option
record_option-OptionsKnown pends none w d a h = h
record_option-OptionsKnown pends (some opt) w d a h = record {
  inherits = h.inherits;
  known = All-mark_seen (IsKnown w.path) w.seen (canonical_opt opt) (opt, d opt refl, refl) h.known;
  pending = elim (Bool-cases (pends opt)) [
    | inl e ↦ rw e (a opt e, d opt refl, is_seen-mark_seen_self w.seen (canonical_opt opt))
    | inr e ↦ rw e (Pending-mark_seen w.path w.seen (canonical_opt opt) w.pending_arg h.pending)
  ];
}

-- A lookup records a declared option.
lookup-OptionsKnown :
    (pends : Opt → Bool) (form : Text) (w : Walk)
    → ((opt : Opt) → pends opt ≡ true → has_args opt ≡ true)
    → OptionsKnown w
    → OptionsKnown (record_option pends (lookup_option w.path w.persistent form) w)
lookup-OptionsKnown pends form w a h =
    record_option-OptionsKnown pends _ w (λ opt e. lookup_option-Declares w form h.inherits e) a h

consume_cluster-OptionsKnown :
    (text : Text) (w : Walk) → OptionsKnown w → OptionsKnown (consume_cluster text w)
unfolding consume_cluster
consume_cluster-OptionsKnown [] w h = h
consume_cluster-OptionsKnown (c ∷ cs) w h =
    let pends : Opt → Bool = λ opt. is_empty cs && has_args opt in
    consume_cluster-OptionsKnown cs
      (record_option pends (lookup_option w.path w.persistent (b'-' ∷ c ∷ [])) w)
      (lookup-OptionsKnown pends (b'-' ∷ c ∷ []) w (λ opt e. ground arith) h)

consume_form-OptionsKnown :
    (form : Option (Text × Text)) (cluster : Bool) (text : Text) (w : Walk)
    → OptionsKnown w
    → OptionsKnown (consume_form form cluster text w)
unfolding consume_form
consume_form-OptionsKnown (some (flag, value)) cluster text w h =
    unfold consume_inline in lookup-OptionsKnown (λ opt. false) flag w (λ opt e. ground arith) h
consume_form-OptionsKnown none true text w h = consume_cluster-OptionsKnown (drop 1 text) w h
consume_form-OptionsKnown none false text w h =
    unfold consume_plain in
    lookup-OptionsKnown (λ opt. has_args opt && not opt.requires_separator) text w
      (λ opt e. ground arith) h

Declares-descend :
    (path : List Subcommand) (n : Subcommand) (opt : Opt)
    → Declares path opt
    → Declares (path ++ n ∷ []) opt
Declares-descend path n opt (k, i, o) = (k, In-append_left path (n ∷ []) i, o)

Pending-descend :
    (path : List Subcommand) (n : Subcommand) (seen : List Text) (o : Option Opt)
    → Pending path seen o
    → Pending (path ++ n ∷ []) seen o
Pending-descend path n seen none h = tt
Pending-descend path n seen (some opt) (a, d, s) = (a, Declares-descend path n opt d, s)

descend_or_advance-OptionsKnown :
    (o : Option Subcommand) (w : Walk) → OptionsKnown w → OptionsKnown (descend_or_advance o w)
unfolding descend_or_advance
descend_or_advance-OptionsKnown none w h = record {
  inherits = h.inherits;
  known = h.known;
  pending = h.pending;
}
descend_or_advance-OptionsKnown (some child) w h = record {
  inherits = unfold descend_or_advance in descend_or_advance-Inherits (some child) w h.inherits;
  known =
      All-map _ _ w.seen (λ name (opt, d, e). (opt, Declares-descend w.path child opt d, e))
        h.known;
  pending = Pending-descend w.path child w.seen w.pending_arg h.pending;
}

walk-OptionsKnown :
    (root : Subcommand) (committed : List Token) → OptionsKnown (walk root committed)
walk-OptionsKnown root committed =
    walk-Kept OptionsKnown
      (record {
        on_value = λ w h. record { inherits = h.inherits; known = h.known; pending = tt };
        on_option = λ d t w h. unfold consume_option in consume_form-OptionsKnown _ _ t w h;
        on_word = λ t w h. unfold consume_word in descend_or_advance-OptionsKnown _ w h;
      })
      root committed
      (unfold initial inherited in
        record { inherits = sym (append-nil (collect_persistent root)); known = tt; pending = tt })

-- Every name in the seen options of a parse is the canonical name of an option that a node of the
-- command path declares.
pub seen_options-parse :
    (root : Subcommand) (committed : List Token) (query : Text)
    → All
        (IsKnown (parse root committed query).command_path)
        (parse root committed query).seen_options
seen_options-parse root committed query = unfold parse in (walk-OptionsKnown root committed).known

-- At the end of the walk an option that waits for its value takes one, is declared and is seen.
pub Pending-walk :
    (root : Subcommand) (committed : List Token)
    → Pending
        (walk root committed).path
        (walk root committed).seen
        (walk root committed).pending_arg
Pending-walk root committed = (walk-OptionsKnown root committed).pending

-- An option that is looked up at the end of the walk is declared.
pub lookup_option-walk :
    (root : Subcommand) (committed : List Token) (form : Text) {opt : Opt}
    → lookup_option (walk root committed).path (walk root committed).persistent form ≡ some opt
    → Declares (walk root committed).path opt
lookup_option-walk root committed form e =
    lookup_option-Declares (walk root committed) form (walk-OptionsKnown root committed).inherits e
