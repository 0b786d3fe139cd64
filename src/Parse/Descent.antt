-- ===== src/Parse/Descent.antt =====
-- crates/core/src/parse.rs: the descent of the walk along a line of words.
use autosuggest_core.Base.{
  ◌≡◌, refl, sym, ap, subst, ◌∙◌, ◌⊎◌, inl, inr, Bool, true, false, List, [], ◌∷◌, ◌++◌, Option,
  none, some, last, drop, find, any-In, In-any, In, here, there, arith, if◌then◌else◌, Bool-cases,
  Option-cases, append-nil, append_assoc, All,
}
use autosuggest_core.Text.{Text, codes, starts_with, text_eq}
use autosuggest_core.Text.Laws.{eq_of_text_eq, text_eq_refl}
use autosuggest_core.Spec.{StringList, Subcommand, command, subcommands, has_name, all_names}
use autosuggest_core.Tokenize.{Token}
use autosuggest_core.Parse.{
  Walk, descend_or_advance, consume_word, is_option_like, walk_token, walk_tokens, initial, walk,
  parse,
}
use autosuggest_core.Parse.Lookup.{find_subcommand}
use autosuggest_core.Parse.Path.{last-append}

-- The text is the name, or one of the names.
abbrev pub Names : StringList → Text → Type 0
Names (StringList.one name) text = text ≡ name
Names (StringList.many names) text = In text names

-- A text that is no option: it does not begin with a dash, or is one dash or two.
abbrev pub IsPlain : Text → Type 0
IsPlain text = (starts_with text (codes "-") ≡ false) ⊎ ((text ≡ codes "-") ⊎ (text ≡ codes "--"))

-- `path` is where the tokens lead from a node: each goes down to the first subcommand of which it is a
-- name or an alias, until one is met that is no name of a subcommand there.
pub data Descends : Subcommand → List Token → List Subcommand → Type 0 where
  ends : {parent : Subcommand} → Descends parent [] []
  halts :
      {parent : Subcommand} {token : Token} {tokens : List Token}
      → ((s : Subcommand) → In s (subcommands parent) → ¬ Names (command s).name token.text)
      → Descends parent (token ∷ tokens) []
  goes_down :
      {parent child : Subcommand} {token : Token} {tokens : List Token} {path : List Subcommand}
      (before after : List Subcommand)
      → subcommands parent ≡ before ++ child ∷ after
      → ((s : Subcommand) → In s before → ¬ Names (command s).name token.text)
      → Names (command child).name token.text
      → Descends child tokens path
      → Descends parent (token ∷ tokens) (child ∷ path)

has_name-Names : (name : StringList) (text : Text) → has_name name text ≡ true → Names name text
unfolding has_name all_names
has_name-Names (StringList.one n) text h = sym (eq_of_text_eq n text (ground arith))
has_name-Names (StringList.many ns) text h =
    let (n, m, e) = any-In (λ n. text_eq n text) ns h in
    subst (λ t. In t ns) (eq_of_text_eq n text e) m

Names-has_name : (name : StringList) (text : Text) → Names name text → has_name name text ≡ true
unfolding has_name all_names
Names-has_name (StringList.one n) text h = rw h (ground (arith, text_eq_refl n))
Names-has_name (StringList.many ns) text h = In-any (λ n. text_eq n text) ns h (text_eq_refl text)

not_named : (name : StringList) (text : Text) → has_name name text ≡ false → ¬ Names name text
not_named name text h n = let k = Names-has_name name text n in absurd (cc)

-- What `find` found is the first.
find-first :
    (p : Subcommand → Bool) (xs : List Subcommand) (x : Subcommand)
    → find p xs ≡ some x
    → (before after : List Subcommand) × ((xs ≡ before ++ x ∷ after)
        × (((s : Subcommand) → In s before → p s ≡ false) × (p x ≡ true)))
find-first p [] x h = absurd (cc)
find-first p (y ∷ ys) x h = elim (Bool-cases (p y)) [
  | inl e ↦
      let q : y ≡ x = (let h' = rw e at h in cc) in
      ([], ys, (ap (λ z. z ∷ ys) q, ((λ s m. elim m [ ]), subst (λ z. p z ≡ true) q e)))
  | inr e ↦
      let (before, after, (s, (f, t))) = find-first p ys x (rw e at h) in
      (
        y ∷ before,
        after,
        (
          ap (◌∷◌ y) s,
          (λ z m. (elim m [ here q ↦ subst (λ z. p z ≡ false) (sym q) e | there k ↦ f z k ]), t),
        ),
      )
]

find-nowhere :
    (p : Subcommand → Bool) (xs : List Subcommand)
    → find p xs ≡ none
    → (s : Subcommand) → In s xs
    → p s ≡ false
find-nowhere p [] h s m = elim m [ ]
find-nowhere p (y ∷ ys) h s m = elim (Bool-cases (p y)) [
  | inl e ↦ absurd (let h' = rw e at h in cc)
  | inr e ↦ elim m [
    | here q ↦ subst (λ z. p z ≡ false) (sym q) e
    | there k ↦ find-nowhere p ys (rw e at h) s k
  ]
]

is_option_like-IsPlain : (text : Text) → IsPlain text → is_option_like text ≡ false
unfolding is_option_like
is_option_like-IsPlain text (inl e) = rw e refl
is_option_like-IsPlain text (inr (inl e)) = rw e refl
is_option_like-IsPlain text (inr (inr e)) = rw e refl

abbrev pub IsPlainLine : List Token → Type 0
IsPlainLine = All (λ (t : Token). IsPlain t.text)

walk_token-word :
    (w : Walk) (token : Token)
    → w.pending_arg ≡ none
    → IsPlain token.text
    → walk_token w token ≡ consume_word token.text w
unfolding walk_token
walk_token-word w token n h = rw (n, is_option_like-IsPlain token.text h) refl

walk_tokens-word :
    (w : Walk) (token : Token) (tokens : List Token) (found : Option Subcommand)
    → w.pending_arg ≡ none
    → IsPlain token.text
    → (if w.positional_started then none else find_subcommand (last w.path) token.text) ≡ found
    → walk_tokens w (token ∷ tokens) ≡ walk_tokens (descend_or_advance found w) tokens
unfolding walk_tokens consume_word
walk_tokens-word w token tokens found n h e =
    ap (λ v. walk_tokens v tokens)
      (walk_token-word w token n h ∙ ap (λ o. descend_or_advance o w) e)

-- Behind the first positional argument the path stays.
walk_tokens-halted :
    (tokens : List Token) (w : Walk)
    → w.pending_arg ≡ none
    → w.positional_started ≡ true
    → IsPlainLine tokens
    → (walk_tokens w tokens).path ≡ w.path
unfolding walk_tokens
walk_tokens-halted [] w n s h = refl
walk_tokens-halted (token ∷ tokens) w n s h =
    ap (λ v. v.path) (walk_tokens-word w token tokens none n h.0 (rw s refl))
    ∙ unfold descend_or_advance in walk_tokens-halted tokens _ n refl h.1

walk_tokens-Descends :
    (tokens : List Token) (w : Walk) (parent : Subcommand)
    → w.pending_arg ≡ none
    → w.positional_started ≡ false
    → last w.path ≡ some parent
    → IsPlainLine tokens
    → (path : List Subcommand) × (Descends parent tokens path
        × ((walk_tokens w tokens).path ≡ w.path ++ path))
unfolding walk_tokens find_subcommand
walk_tokens-Descends [] w parent n s l h = ([], (Descends.ends, sym (append-nil w.path)))
walk_tokens-Descends (token ∷ tokens) w parent n s l h =
    let named : Subcommand → Bool = λ c. has_name (command c).name token.text in
    elim (Option-cases (find named (subcommands parent))) [
      | inl f ↦ (
        [],
        (
          Descends.halts (λ c m.
              not_named (command c).name token.text
                (find-nowhere named (subcommands parent) f c m)),
          ap (λ v. v.path) (walk_tokens-word w token tokens none n h.0 (rw (s, l, f) refl))
              ∙ unfold descend_or_advance in
                walk_tokens-halted tokens _ n refl h.1 ∙ sym (append-nil w.path),
        ),
      )
      | inr (child, f) ↦
          let (before, after, (q, (o, t))) = find-first named (subcommands parent) child f in
          let (path, (d, p)) =
            walk_tokens-Descends tokens (descend_or_advance (some child) w) child
              (unfold descend_or_advance in n) (unfold descend_or_advance in s)
              (unfold descend_or_advance in last-append w.path child) h.1 in
          (
            child ∷ path,
            (
              Descends.goes_down before after q
                  (λ c m. not_named (command c).name token.text (o c m))
                  (has_name-Names (command child).name token.text t) d,
              ap (λ v. v.path)
                    (walk_tokens-word w token tokens (some child) n h.0 (rw (s, l, f) refl))
                  ∙ p
                  ∙ unfold descend_or_advance in append_assoc w.path (child ∷ []) path,
            ),
          )
    ]

-- On a line without options, the command path of a parse is the root and the nodes to which the
-- committed tokens behind the first lead from it: each goes down to the first subcommand of the node
-- that has it as a name or an alias, up to the first that no subcommand of the node has.
pub parse-Descends :
    (root : Subcommand) (committed : List Token) (query : Text)
    → IsPlainLine (drop 1 committed)
    → (path : List Subcommand) × (Descends root (drop 1 committed) path
        × ((parse root committed query).command_path ≡ root ∷ path))
unfolding parse walk initial
parse-Descends root committed query h =
    walk_tokens-Descends (drop 1 committed) (initial root) root refl refl refl h
