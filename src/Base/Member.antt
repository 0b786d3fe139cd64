-- ===== src/Base/Member.antt =====
-- Membership in a list, and what the Boolean searches say of it.
use mathlib.Core.Path.{◌≡◌, refl, ◌∙◌}
use mathlib.Core.Logic.{◌⊎◌, inl, inr}
use mathlib.Core.Bool.{Bool, true, false}
use mathlib.Core.List.{List, [], ◌∷◌, ◌++◌, map}
use mathlib.Core.Option.{Option, none, some}
use native.Mathlib.Omega.{arith}
use autosuggest_core.Base.Tests.{Bool-cases, Option-cases}
use autosuggest_core.Base.Lists.{any, filter_map, find_map, find, filter, All, take}
use Prim.Native.Nat.{ℕ, zero, suc}

pub data In {ℓ} {A : Type ℓ} (a : A) : List A → Type ℓ where
  here : {x : A} {xs : List A} → a ≡ x → In a (x ∷ xs)
  there : {x : A} {xs : List A} → In a xs → In a (x ∷ xs)

module _ {ℓ} {A : Type ℓ} where
  pub In-All {κ} : (P : A → Type κ) {a : A} (xs : List A) → All P xs → In a xs → P a
  In-All P [] h m = elim m [ ]
  In-All P (x ∷ xs) h (here e) = rw e h.0
  In-All P (x ∷ xs) h (there m) = In-All P xs h.1 m

  pub All-In {κ} : (P : A → Type κ) (xs : List A) → ((a : A) → In a xs → P a) → All P xs
  All-In P [] f = tt
  All-In P (x ∷ xs) f = (f x (here refl), All-In P xs (λ a m. f a (there m)))

  pub In-append : {a : A} (xs ys : List A) → In a (xs ++ ys) → In a xs ⊎ In a ys
  In-append [] ys m = inr m
  In-append (x ∷ xs) ys (here e) = inl (here e)
  In-append (x ∷ xs) ys (there m) = elim (In-append xs ys m) [
    | inl h ↦ inl (there h)
    | inr h ↦ inr h
  ]

  pub In-append_left : {a : A} (xs ys : List A) → In a xs → In a (xs ++ ys)
  In-append_left [] ys m = elim m [ ]
  In-append_left (x ∷ xs) ys (here e) = here e
  In-append_left (x ∷ xs) ys (there m) = there (In-append_left xs ys m)

  pub In-append_right : {a : A} (xs ys : List A) → In a ys → In a (xs ++ ys)
  In-append_right [] ys m = m
  In-append_right (x ∷ xs) ys m = there (In-append_right xs ys m)

  pub In-take : {a : A} (n : ℕ) (xs : List A) → In a (take n xs) → In a xs
  In-take zero xs m = elim m [ ]
  In-take (suc n) [] m = elim m [ ]
  In-take (suc n) (x ∷ xs) (here e) = here e
  In-take (suc n) (x ∷ xs) (there m) = there (In-take n xs m)

  In-cons_filter :
      {a x : A} (p : A → Bool) (xs : List A)
      → p x ≡ true
      → (In a (filter p xs) → In a xs × (p a ≡ true))
      → In a (x ∷ filter p xs)
      → In a (x ∷ xs) × (p a ≡ true)
  In-cons_filter p xs e ih (here q) = (here q, rw q e)
  In-cons_filter p xs e ih (there m) = (there (ih m).0, (ih m).1)

  pub In-filter : {a : A} (p : A → Bool) (xs : List A) → In a (filter p xs) → In a xs × (p a ≡ true)
  In-filter p [] m = elim m [ ]
  In-filter p (x ∷ xs) m = elim (Bool-cases (p x)) [
    | inl e ↦ In-cons_filter p xs e (In-filter p xs) (rw e at m)
    | inr e ↦ let (h, q) = In-filter p xs (rw e at m) in (there h, q)
  ]

  pub filter-In : {a : A} (p : A → Bool) (xs : List A) → In a xs → p a ≡ true → In a (filter p xs)
  filter-In p [] m h = elim m [ ]
  filter-In p (x ∷ xs) (here e) h = let q : p x ≡ true = rw e at h in rw q (here e)
  filter-In p (x ∷ xs) (there m) h = elim (Bool-cases (p x)) [
    | inl e ↦ rw e (there (filter-In p xs m h))
    | inr e ↦ rw e (filter-In p xs m h)
  ]

  pub find-In : {a : A} (p : A → Bool) (xs : List A) → find p xs ≡ some a → In a xs × (p a ≡ true)
  find-In p [] h = absurd (cc)
  find-In {a} p (x ∷ xs) h = elim (Bool-cases (p x)) [
    | inl e ↦ let q : x ≡ a = ground arith in (here (ground arith), rw q at e)
    | inr e ↦ let (m, q) = find-In p xs (rw e at h) in (there m, q)
  ]

  pub find-none : (p : A → Bool) (xs : List A) → find p xs ≡ none → All (λ a. p a ≡ false) xs
  find-none p [] h = tt
  find-none p (x ∷ xs) h = elim (Bool-cases (p x)) [
    | inl e ↦ absurd (ground arith)
    | inr e ↦ (e, find-none p xs (rw e at h))
  ]

  pub any-In : (p : A → Bool) (xs : List A) → any p xs ≡ true → (a : A) × In a xs × (p a ≡ true)
  any-In p [] h = absurd (cc)
  any-In p (x ∷ xs) h = elim (Bool-cases (p x)) [
    | inl e ↦ (x, here refl, e)
    | inr e ↦ let (a, m, q) = any-In p xs (rw e at h) in (a, there m, q)
  ]

  pub In-any : {a : A} (p : A → Bool) (xs : List A) → In a xs → p a ≡ true → any p xs ≡ true
  In-any p [] m h = elim m [ ]
  In-any p (x ∷ xs) (here e) h = let q : p x ≡ true = rw e at h in rw q
  In-any p (x ∷ xs) (there m) h = ground (arith, In-any p xs m h)

pub In-map {ℓ κ} :
    {A : Type ℓ} {B : Type κ} (f : A → B) {b : B} (xs : List A)
    → In b (map f xs)
    → (a : A) × In a xs × (b ≡ f a)
In-map f [] m = elim m [ ]
In-map f (x ∷ xs) (here e) = (x, here refl, e)
In-map f (x ∷ xs) (there m) = let (a, n, e) = In-map f xs m in (a, there n, e)

pub map-In {ℓ κ} :
    {A : Type ℓ} {B : Type κ} (f : A → B) {a : A} (xs : List A) → In a xs → In (f a) (map f xs)
map-In f [] m = elim m [ ]
map-In f (x ∷ xs) (here e) = here (rw e)
map-In f (x ∷ xs) (there m) = there (map-In f xs m)

module _ {ℓ κ} {A : Type ℓ} {B : Type κ} (f : A → Option B) where
  pub In-filter_map :
      {b : B} (xs : List A) → In b (filter_map f xs) → (a : A) × (In a xs × (f a ≡ some b))
  In-filter_map [] m = elim m [ ]
  In-filter_map (x ∷ xs) m = elim (Option-cases (f x)) [
    | inl e ↦ (let (a, (k, q)) = In-filter_map xs (rw (filter_map, e) at m) in (a, (there k, q)))
    | inr (y, e) ↦ In-kept x xs y e (In-filter_map xs) (rw (filter_map, e) at m)
  ]
    where
      In-kept :
          {b : B} (x : A) (xs : List A) (y : B)
          → f x ≡ some y
          → (In b (filter_map f xs) → (a : A) × (In a xs × (f a ≡ some b)))
          → In b (y ∷ filter_map f xs)
          → (a : A) × (In a (x ∷ xs) × (f a ≡ some b))
      In-kept x xs y e rec (here q) = (x, (here refl, rw q e))
      In-kept x xs y e rec (there m) = let (a, (k, q)) = rec m in (a, (there k, q))

  pub In-find_map :
      {b : B} (xs : List A) → find_map f xs ≡ some b → (a : A) × (In a xs × (f a ≡ some b))
  In-find_map [] h = absurd (cc)
  In-find_map (x ∷ xs) h = elim (Option-cases (f x)) [
    | inl e ↦ (let (a, (k, q)) = In-find_map xs (rw (find_map, e) at h) in (a, (there k, q)))
    | inr (y, e) ↦ (x, (here refl, e ∙ rw (find_map, e) at h))
  ]
