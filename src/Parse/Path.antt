-- ===== src/Parse/Path.antt =====
-- The command path: a chain of subcommands from the root, each found by name in the one before.
use autosuggest_core.Base.{
  ◌≡◌, refl, sym, subst, Bool, true, false, List, [], ◌∷◌, ◌++◌, Option, none, some, last, is_empty,
  ◌&&◌, not, drop, In, find-In, is_some, arith, if◌then◌else◌,
}
use autosuggest_core.Text.{Text}
use autosuggest_core.Spec.{ParserDirectives, Subcommand, Opt, command, subcommands, has_name}
use autosuggest_core.Tokenize.{Token}
use autosuggest_core.Parse.{
  has_args, descend_or_advance, Walk, record_option, consume_form, consume_option, consume_inline,
  consume_cluster, consume_plain, consume_word, walk_token, walk_tokens, initial, walk, parse,
  active, options_first_of, is_option_like,
}
use autosuggest_core.Parse.Lookup.{find_subcommand, lookup_option, active_directives}

-- `path` leads down from `root`, by subcommands that a name or an alias of the line selects.
pub data IsPath (root : Subcommand) : List Subcommand → Type 0 where
  at_root : IsPath root (root ∷ [])
  descend :
      {path : List Subcommand} {parent child : Subcommand} (text : Text)
      → IsPath root path
      → last path ≡ some parent
      → In child (subcommands parent)
      → has_name (command child).name text ≡ true
      → IsPath root (path ++ child ∷ [])

pub last-append {ℓ} : {A : Type ℓ} (xs : List A) (x : A) → last (xs ++ x ∷ []) ≡ some x
last-append [] x = refl
last-append (y ∷ []) x = refl
last-append (y ∷ z ∷ zs) x = last-append (z ∷ zs) x

-- What an option token leaves alone.
pub record SamePlace (v w : Walk) : Type 0 where
  pub path : w.path ≡ v.path
  pub persistent : w.persistent ≡ v.persistent
  pub arg_index : w.arg_index ≡ v.arg_index
  pub started : w.positional_started ≡ v.positional_started

SamePlace-trans : {u v w : Walk} → SamePlace u v → SamePlace v w → SamePlace u w
SamePlace-trans p q = ground arith

record_option-SamePlace :
    (pends : Opt → Bool) (found : Option Opt) (w : Walk) → SamePlace w (record_option pends found w)
unfolding record_option
record_option-SamePlace pends none w = ground arith
record_option-SamePlace pends (some opt) w = record {
  path = refl;
  persistent = refl;
  arg_index = refl;
  started = refl;
}

consume_cluster-SamePlace : (text : Text) (w : Walk) → SamePlace w (consume_cluster text w)
unfolding consume_cluster
consume_cluster-SamePlace [] w = ground arith
consume_cluster-SamePlace (c ∷ cs) w =
    let found = lookup_option w.path w.persistent (b'-' ∷ c ∷ []) in
    let pends : Opt → Bool = λ opt. is_empty cs && has_args opt in
    SamePlace-trans (record_option-SamePlace pends found w)
      (consume_cluster-SamePlace cs (record_option pends found w))

consume_form-SamePlace :
    (form : Option (Text × Text)) (cluster : Bool) (text : Text) (w : Walk)
    → SamePlace w (consume_form form cluster text w)
unfolding consume_form
consume_form-SamePlace (some (flag, value)) cluster text w =
    unfold consume_inline in record_option-SamePlace (λ opt. false) _ w
consume_form-SamePlace none true text w = consume_cluster-SamePlace (drop 1 text) w
consume_form-SamePlace none false text w =
    unfold consume_plain in
    record_option-SamePlace (λ opt. has_args opt && not opt.requires_separator) _ w

pub consume_option-SamePlace :
    (directives : Option ParserDirectives) (text : Text) (w : Walk)
    → SamePlace w (consume_option directives text w)
consume_option-SamePlace directives text w =
    unfold consume_option in consume_form-SamePlace _ _ text w

-- The rule for an invariant of the loop: it holds at the start, and options, descents and
-- positional arguments keep it.
module _ {ℓ} (P : Walk → Type ℓ) where
  pub record Kept : Type ℓ where
    pub on_value : (w : Walk) → P w → P (record w { pending_arg = none })
    pub on_option :
        (directives : Option ParserDirectives) (text : Text) (w : Walk)
        → P w
        → P (consume_option directives text w)
    pub on_word : (text : Text) (w : Walk) → P w → P (consume_word text w)

  if-keeps : (b : Bool) (v w : Walk) → P v → P w → P (if b then v else w)
  if-keeps true v w h k = h
  if-keeps false v w h k = k

  walk_token-Kept : Kept → (w : Walk) (token : Token) → P w → P (walk_token w token)
  unfolding walk_token
  walk_token-Kept k w token h = if-keeps (is_some w.pending_arg) _ _ (k.on_value w h) (
      if-keeps
        (is_option_like token.text
          && not (options_first_of (active_directives w.path) && w.positional_started))
        _ _ (k.on_option (active_directives w.path) token.text w h) (k.on_word token.text w h))

  walk_tokens-Kept : Kept → (w : Walk) (tokens : List Token) → P w → P (walk_tokens w tokens)
  unfolding walk_tokens
  walk_tokens-Kept k w [] h = h
  walk_tokens-Kept k w (token ∷ tokens) h =
      walk_tokens-Kept k (walk_token w token) tokens (walk_token-Kept k w token h)

  pub walk-Kept :
      Kept
      → (root : Subcommand) (committed : List Token) → P (initial root)
      → P (walk root committed)
  walk-Kept k root committed h =
      unfold walk in walk_tokens-Kept k (initial root) (drop 1 committed) h

find_subcommand-In :
    (parent : Option Subcommand) (text : Text) {child : Subcommand}
    → find_subcommand parent text ≡ some child
    → (p : Subcommand) × (parent ≡ some p)
      × In child (subcommands p)
      × (has_name (command child).name text ≡ true)
unfolding find_subcommand
find_subcommand-In none text e = absurd (cc)
find_subcommand-In (some p) text e =
    let (m, h) = find-In (λ s. has_name (command s).name text) (subcommands p) e in (p, refl, m, h)

abbrev OnPath : Subcommand → Walk → Type 0
OnPath root w = IsPath root w.path

consume_word-OnPath :
    (root : Subcommand) (text : Text) (w : Walk) → OnPath root w → OnPath root (consume_word text w)
unfolding consume_word
consume_word-OnPath root text w h =
    go (if w.positional_started then none else find_subcommand (last w.path) text) refl
  where
    go :
        (o : Option Subcommand)
        → (if w.positional_started then none else find_subcommand (last w.path) text) ≡ o
        → OnPath root (descend_or_advance o w)
    go none e = unfold descend_or_advance in h
    go (some child) e =
        unfold descend_or_advance in
        let (p, ep, m, n) = find_subcommand-In (last w.path) text {child = child} (ground arith) in
        IsPath.descend text h ep m n

-- The command path of a parse leads down from the root: it begins with the root, and each further
-- node is a subcommand of the node before, under a name or an alias.
pub parse-IsPath :
    (root : Subcommand) (committed : List Token) (query : Text)
    → IsPath root (parse root committed query).command_path
parse-IsPath root committed query =
    unfold parse in
    walk-Kept (OnPath root)
      (record {
        on_value = λ w h. h;
        on_option = λ d t w h. subst (IsPath root) (sym (consume_option-SamePlace d t w).path) h;
        on_word = λ t w h. consume_word-OnPath root t w h;
      })
      root committed (unfold initial in IsPath.at_root)

IsPath-last :
    {root : Subcommand} {path : List Subcommand}
    → IsPath root path
    → (n : Subcommand) × (last path ≡ some n)
IsPath-last {root} at_root = (root, refl)
IsPath-last (descend {path} {child} text p e m h) = (child, last-append path child)

-- The active node is the last of the path: the fallback to the root is never taken.
pub active-parse :
    (root : Subcommand) (committed : List Token) (query : Text)
    → last (parse root committed query).command_path ≡ some (active (parse root committed query))
active-parse root committed query =
    let (n, e) = IsPath-last (parse-IsPath root committed query) in
    unfold active in rw e (ground arith)
