-- ===== src/Parse/Positional.antt =====
-- The positional argument at the index of a parse: no variadic argument has been passed.
use autosuggest_core.Parse.{
  consume_option, CursorKind, Walk, descend_or_advance, consume_word, initial, walk, variadic_tail,
  command_argument_cursor,
}
use autosuggest_core.Parse.Lookup.{advance_arg_index}
use native.Mathlib.Numerals.{add-one}
use autosuggest_core.Base.{
  ℕ, zero, suc, ◌+◌, ◌≤◌, ◌≡◌, inl, inr, refl, sym, subst, false, List, [], ◌∷◌, Option, none, some,
  length, get_elem?, last, take, All, arith, Bool-cases, Option-cases, if◌then◌else◌, leb,
  unwrap_or,
}
use autosuggest_core.Spec.{Subcommand, Arg, args}
use autosuggest_core.Tokenize.{Token}
use autosuggest_core.Parse.Path.{walk-Kept, consume_option-SamePlace}

abbrev pub args_of : Option Subcommand → List Arg
args_of none = []
args_of (some n) = args n

-- None of the arguments that the index has passed is variadic.
abbrev pub Passed : List Arg → ℕ → Type 0
Passed arguments k = All (λ (a : Arg). a.is_variadic ≡ false) (take k arguments)

Passed-suc :
    (arguments : List Arg) (k : ℕ)
    → ((a : Arg) → get_elem? arguments k ≡ some a → a.is_variadic ≡ false)
    → Passed arguments k
    → Passed arguments (suc k)
Passed-suc [] k h p = tt
Passed-suc (a ∷ as') zero h p = (h a refl, tt)
Passed-suc (a ∷ as') (suc k) h p = (p.0, Passed-suc as' k h p.1)

advance_arg_index-Passed :
    (n : Option Subcommand) (k : ℕ)
    → Passed (args_of n) k
    → Passed (args_of n) (advance_arg_index n k)
unfolding advance_arg_index
advance_arg_index-Passed none k h = rw add-one (Passed-suc [] k (λ a e. absurd (cc)) h)
advance_arg_index-Passed (some n) k h = go (get_elem? (args n) k) refl
  where
    go :
        (o : Option Arg)
        → get_elem? (args n) k ≡ o
        → Passed
            (args n)
            (elim o [ none ↦ k + 1 | some arg ↦ if arg.is_variadic then k else k + 1 ])
    go none e = rw add-one (Passed-suc (args n) k (λ a q. absurd (cc)) h)
    go (some a) e = elim (Bool-cases a.is_variadic) [
      | inl v ↦ rw v h
      | inr v ↦ rw (v, add-one) (Passed-suc (args n) k (λ b q. ground arith) h)
    ]

abbrev pub PassedIn : Walk → Type 0
PassedIn w = Passed (args_of (last w.path)) w.arg_index

descend_or_advance-PassedIn :
    (o : Option Subcommand) (w : Walk) → PassedIn w → PassedIn (descend_or_advance o w)
unfolding descend_or_advance
descend_or_advance-PassedIn none w h = advance_arg_index-Passed (last w.path) w.arg_index h
descend_or_advance-PassedIn (some child) w h = tt

pub walk-PassedIn : (root : Subcommand) (committed : List Token) → PassedIn (walk root committed)
walk-PassedIn root committed =
    walk-Kept PassedIn
      (record {
        on_value = λ w h. h;
        on_option = λ d t w h.
            let s = consume_option-SamePlace d t w in
            subst
              (λ (p : List Subcommand). Passed (args_of (last p)) (consume_option d t w).arg_index)
              (sym s.path) (subst (λ k. Passed (args_of (last w.path)) k) (sym s.arg_index) h);
        on_word = λ t w h. unfold consume_word in descend_or_advance-PassedIn _ w h;
      })
      root committed (unfold initial in tt)

pub last-Passed :
    (arguments : List Arg) (k : ℕ) {l : Arg}
    → last arguments ≡ some l
    → length arguments ≤ k
    → Passed arguments k
    → l.is_variadic ≡ false
last-Passed [] k e n h = absurd (cc)
last-Passed (a ∷ []) zero e n h = absurd (omega arith)
last-Passed (a ∷ []) (suc k) {l} e n h = let q : a ≡ l = ground arith in rw (← q) h.0
last-Passed (a ∷ b ∷ as') zero e n h = absurd (omega arith)
last-Passed (a ∷ b ∷ as') (suc k) e n h = last-Passed (b ∷ as') k e (omega arith) h.1

-- The last argument is passed once the index is past the end, so it is not variadic.
pub variadic_tail-Passed :
    (arguments : List Arg) (k : ℕ) → Passed arguments k → variadic_tail arguments k ≡ none
variadic_tail-Passed arguments k h = elim (Option-cases (last arguments)) [
  | inl e ↦ unfold variadic_tail in rw e
  | inr (l, e) ↦ elim (Bool-cases (leb (length arguments) k)) [
    | inl b ↦
        let v = last-Passed arguments k e (ground arith) h in unfold variadic_tail in rw (e, v)
    | inr b ↦ unfold variadic_tail in rw e (ground arith)
  ]
]

-- The positional argument at the index, as a cursor kind.
abbrev pub positional : Option Arg → CursorKind
positional none = CursorKind.empty
positional (some a) = CursorKind.command_argument a

pub command_argument_cursor_at :
    (path : List Subcommand) (k : ℕ) (n : Subcommand)
    → last path ≡ some n
    → command_argument_cursor path k ≡ (elim (get_elem? (args n) k) [
      | some arg ↦ some (CursorKind.command_argument arg)
      | none ↦ variadic_tail (args n) k
    ])
unfolding command_argument_cursor
command_argument_cursor_at path k n e = rw e

pub command_argument_cursor-Passed :
    (path : List Subcommand) (k : ℕ) (n : Subcommand)
    → last path ≡ some n
    → Passed (args n) k
    → unwrap_or (command_argument_cursor path k) CursorKind.empty
      ≡ positional (get_elem? (args n) k)
command_argument_cursor-Passed path k n e h =
    rw (command_argument_cursor_at path k n e) (go (get_elem? (args n) k) refl)
  where
    go :
        (o : Option Arg)
        → get_elem? (args n) k ≡ o
        → unwrap_or
            (elim o [
              | some arg ↦ some (CursorKind.command_argument arg)
              | none ↦ variadic_tail (args n) k
            ])
            CursorKind.empty
          ≡ positional o
    go none q = rw (variadic_tail-Passed (args n) k h)
    go (some a) q = refl
