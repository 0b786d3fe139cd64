-- ===== src/Parse/Inherited.antt =====
-- The persistent options that a parse inherits along its path.
use autosuggest_core.Base.{
  ◌≡◌, sym, ap, ◌∙◌, List, [], ◌∷◌, ◌++◌, Option, none, some, append_assoc, append-nil,
}
use autosuggest_core.Parse.{Walk, descend_or_advance, consume_word, initial, parse}
use autosuggest_core.Parse.Lookup.{collect_persistent}
use autosuggest_core.Text.{Text}
use autosuggest_core.Spec.{Subcommand, Opt}
use autosuggest_core.Tokenize.{Token}
use autosuggest_core.Parse.Path.{Kept, walk-Kept, consume_option-SamePlace}

-- The persistent options of the nodes of a path, from the root down.
unfoldable pub inherited : List Subcommand → List Opt
inherited [] = []
inherited (n ∷ path) = collect_persistent n ++ inherited path

pub inherited-append :
    (path : List Subcommand) (n : Subcommand)
    → inherited (path ++ n ∷ []) ≡ inherited path ++ collect_persistent n
unfolding inherited
inherited-append [] n = append-nil (collect_persistent n)
inherited-append (m ∷ path) n =
    ap (λ x. collect_persistent m ++ x) (inherited-append path n)
    ∙ sym (append_assoc (collect_persistent m) (inherited path) (collect_persistent n))

abbrev pub Inherits : Walk → Type 0
Inherits w = w.persistent ≡ inherited w.path

pub descend_or_advance-Inherits :
    (o : Option Subcommand) (w : Walk) → Inherits w → Inherits (descend_or_advance o w)
unfolding descend_or_advance
descend_or_advance-Inherits none w h = h
descend_or_advance-Inherits (some child) w h = rw (h, inherited-append)

pub Inherits-Kept : Kept Inherits
Inherits-Kept = record {
  on_value = λ w h. h;
  on_option = λ d t w h.
      let s = consume_option-SamePlace d t w in s.persistent ∙ h ∙ ap inherited (sym s.path);
  on_word = λ t w h. unfold consume_word in descend_or_advance-Inherits _ w h;
}

-- The inherited options of a parse are exactly the persistent options of the nodes of its path, from
-- the root down to the active node.
pub persistent_options-parse :
    (root : Subcommand) (committed : List Token) (query : Text)
    → (parse root committed query).persistent_options
      ≡ inherited (parse root committed query).command_path
persistent_options-parse root committed query =
    unfold parse in
    walk-Kept Inherits Inherits-Kept root committed
      (unfold initial inherited in sym (append-nil (collect_persistent root)))
