-- ===== src/Complete/Valid.antt =====
-- crates/core/src/complete.rs: which options are offered, and where candidates come from.
use autosuggest_core.Base.{
  ◌≢◌, In-append_left, In-append, ap₂, ap, filter-In, map-In, In-filter, In-map, In-any, any-In, In,
  ◌≡◌, refl, sym, subst, ◌↔◌, inl, inr, ◌⊎◌, In-append_right, ◌<◌, Bool, true, false, List, [], ◌∷◌,
  arith, Bool-cases, here, there, not, ◌&&◌, any, all, filter, if◌then◌else◌,
}
use autosuggest_core.Complete.{
  active, options, repeats, option_is_valid, offered_options, same_name, same_names,
  option_candidates, option_to_candidate,
}
use autosuggest_core.Text.{Text, text_eq}
use autosuggest_core.Text.Laws.{eq_of_text_eq, text_eq_refl}
use autosuggest_core.Spec.{Opt, Repeatable, StringList}
use autosuggest_core.Parse.{ParseState}
use autosuggest_core.Parse.Lookup.{is_seen, canonical_opt}
use autosuggest_core.Rank.{Candidate}

-- The option may be given more than once.
abbrev pub MayRepeat : Repeatable → Type 0
MayRepeat (Repeatable.flag b) = b ≡ true
MayRepeat (Repeatable.max n) = 1 < n

repeats_iff : (r : Repeatable) → (repeats r ≡ true) ↔ MayRepeat r
unfolding repeats
repeats_iff (Repeatable.flag b) = (λ h. h, λ h. h)
repeats_iff (Repeatable.max n) = ground arith

is_seen_iff : (seen : List Text) (name : Text) → (is_seen seen name ≡ true) ↔ In name seen
unfolding is_seen
is_seen_iff seen name = (
  λ h.
      let (s, m, e) = any-In (λ s. text_eq s name) seen h in
      subst (λ x. In x seen) (eq_of_text_eq s name e) m,
  λ m. In-any (λ s. text_eq s name) seen m (text_eq_refl name),
)

-- The option may be offered for what has been seen: it is new or may repeat, none of the options that
-- exclude it has been seen, and all those that it depends on have.
abbrev pub IsOffered : Opt → List Text → Type 0
IsOffered opt seen =
    (In (canonical_opt opt) seen → MayRepeat opt.is_repeatable)
    × (((name : Text) → In name opt.exclusive_on → In name seen → ⊥)
        × ((name : Text) → In name opt.depends_on → In name seen))

all-In : (p : Text → Bool) (xs : List Text) → all p xs ≡ true → (a : Text) → In a xs → p a ≡ true
all-In p [] h a m = elim m [ ]
all-In p (x ∷ xs) h a (here e) = subst (λ t. p t ≡ true) (sym e) (ground arith)
all-In p (x ∷ xs) h a (there m) = all-In p xs (ground arith) a m

In-all : (p : Text → Bool) (xs : List Text) → ((a : Text) → In a xs → p a ≡ true) → all p xs ≡ true
In-all p [] f = refl
In-all p (x ∷ xs) f = let e = f x (here refl) in rw e (In-all p xs (λ a m. f a (there m)))

any-false :
    {A : Type 0} (p : A → Bool) (xs : List A)
    → ((a : A) → In a xs → p a ≡ true → ⊥)
    → any p xs ≡ false
any-false p xs f = elim (Bool-cases (any p xs)) [
  | inr e ↦ e
  | inl e ↦ (let (a, m, h) = any-In p xs e in absurd (f a m h))
]

tests_iff :
    (a r b c : Bool)
    → ((if a && not r then false else if b then false else c) ≡ true)
      ↔ ((a ≡ true → r ≡ true) × ((b ≡ false) × (c ≡ true)))
tests_iff true true b c = ground arith
tests_iff true false b c = (λ h. absurd (cc), λ h. absurd (let k = h.0 refl in cc))
tests_iff false r b c = ground arith

option_is_valid-IsOffered :
    (opt : Opt) (state : ParseState)
    → (option_is_valid opt state ≡ true) ↔ IsOffered opt state.seen_options
unfolding option_is_valid
option_is_valid-IsOffered opt state =
    let seen = state.seen_options in
    let t =
      tests_iff (is_seen seen (canonical_opt opt)) (repeats opt.is_repeatable)
        (any (λ ex. is_seen seen ex) opt.exclusive_on)
        (all (λ dep. is_seen seen dep) opt.depends_on) in
    (
      λ h.
          let (f, (b, c)) = t.0 h in
          (
            λ m. (repeats_iff opt.is_repeatable).0 (f ((is_seen_iff seen (canonical_opt opt)).1 m)),
            (
              λ name m n. absurd (
                  let k =
                    In-any (λ ex. is_seen seen ex) opt.exclusive_on m
                      ((is_seen_iff seen name).1 n) in
                  cc),
              λ name m.
                  (is_seen_iff seen name).0
                    (all-In (λ dep. is_seen seen dep) opt.depends_on c name m),
            ),
          ),
      λ (f, (x, d)). t.1 (
        λ e. (repeats_iff opt.is_repeatable).1 (f ((is_seen_iff seen (canonical_opt opt)).0 e)),
        (
          any-false (λ ex. is_seen seen ex) opt.exclusive_on
              (λ name m e. x name m ((is_seen_iff seen name).0 e)),
          In-all (λ dep. is_seen seen dep) opt.depends_on
              (λ name m. (is_seen_iff seen name).1 (d name m)),
        ),
      ),
    )

eq_of_same_names : (xs ys : List Text) → same_names xs ys ≡ true → xs ≡ ys
unfolding same_names
eq_of_same_names [] [] h = refl
eq_of_same_names [] (y ∷ ys) h = absurd (cc)
eq_of_same_names (x ∷ xs) [] h = absurd (cc)
eq_of_same_names (x ∷ xs) (y ∷ ys) h =
    ap₂ (λ t ts. t ∷ ts) (eq_of_text_eq x y (ground arith)) (eq_of_same_names xs ys (ground arith))

same_names_refl : (xs : List Text) → same_names xs xs ≡ true
unfolding same_names
same_names_refl [] = refl
same_names_refl (x ∷ xs) = ground (arith, text_eq_refl x, same_names_refl xs)

eq_of_same_name : (a b : StringList) → same_name a b ≡ true → a ≡ b
unfolding same_name
eq_of_same_name (StringList.one a) (StringList.one b) h = ap StringList.one (eq_of_text_eq a b h)
eq_of_same_name (StringList.many xs) (StringList.many ys) h =
    ap StringList.many (eq_of_same_names xs ys h)
eq_of_same_name (StringList.one a) (StringList.many ys) h = absurd (cc)
eq_of_same_name (StringList.many xs) (StringList.one b) h = absurd (cc)

same_name_refl : (a : StringList) → same_name a a ≡ true
unfolding same_name
same_name_refl (StringList.one a) = text_eq_refl a
same_name_refl (StringList.many xs) = same_names_refl xs

-- An option that the cursor can take: one of the active node, or an inherited one, unless the active
-- node has an option with the same names.
abbrev pub IsInScope : Opt → ParseState → Type 0
IsInScope opt state =
    In opt (options (active state))
    ⊎ (In opt state.persistent_options
        × ((own : Opt) → In own (options (active state)) → own.name ≢ opt.name))

any_none : (p : Opt → Bool) (xs : List Opt) → any p xs ≡ false → (o : Opt) → In o xs → p o ≡ false
any_none p xs h o m = elim (Bool-cases (p o)) [
  | inr e ↦ e
  | inl e ↦ absurd (let k = In-any p xs m e in cc)
]

offered_options-IsInScope :
    (state : ParseState) (opt : Opt) → In opt (offered_options state) ↔ IsInScope opt state
unfolding offered_options
offered_options-IsInScope state opt =
    let own = options (active state) in
    let is_own : Opt → Bool = (λ p. any (λ o. same_name o.name p.name) own) in
    let inherited = filter (λ p. not (is_own p)) state.persistent_options in
    (
      λ m. elim (In-append own inherited m) [
        | inl k ↦ inl k
        | inr k ↦
            let (n, h) = In-filter (λ p. not (is_own p)) state.persistent_options k in
            inr (
              n,
              λ o w e. absurd (
                  let q = any_none (λ o. same_name o.name opt.name) own (ground arith) o w in
                  let r = same_name_refl opt.name in let q' = rw e at q in cc),
            )
      ],
      λ s. elim s [
        | inl k ↦ In-append_left own inherited k
        | inr (n, f) ↦
            let q =
              any-false (λ o. same_name o.name opt.name) own
                (λ o w e. f o w (eq_of_same_name o.name opt.name e)) in
            In-append_right own inherited
              (filter-In (λ p. not (is_own p)) state.persistent_options n (rw q refl))
      ],
    )

-- The option candidates are exactly those of the options that are in scope, which are the options of
-- the active node and the inherited ones whose names none of those has, and that may be offered: not
-- seen yet or repeatable, with nothing seen that excludes them and with all seen that they depend on.
pub option_candidates-IsOffered :
    (state : ParseState) (c : Candidate)
    → In c (option_candidates state) ↔ (
        (opt : Opt) × (IsInScope opt state
          × (IsOffered opt state.seen_options × (c ≡ option_to_candidate opt))))
unfolding option_candidates
option_candidates-IsOffered state c = (
  λ m.
      let (o, n, e) =
        In-map option_to_candidate (filter (λ x. option_is_valid x state) (offered_options state))
          m in
      let (k, h) = In-filter (λ x. option_is_valid x state) (offered_options state) n in
      (o, ((offered_options-IsInScope state o).0 k, ((option_is_valid-IsOffered o state).0 h, e))),
  λ (o, (s, (h, e))).
      let k = (offered_options-IsInScope state o).1 s in
      rw e (
        map-In option_to_candidate (filter (λ x. option_is_valid x state) (offered_options state)) (
          filter-In (λ x. option_is_valid x state) (offered_options state) k
            ((option_is_valid-IsOffered o state).1 h))),
)
