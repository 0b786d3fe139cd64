-- ===== src/Base/Sort.antt =====
-- `slice::sort_by`: the standard library's stable sort, as insertion from the right, and its laws
-- for a comparison that is a total preorder.
use Prim.Native.Nat.{ℕ, zero, suc, Ordering}
use mathlib.Core.Path.{◌≡◌, refl, ap}
use mathlib.Core.Logic.{◌⊎◌, inl, inr}
use mathlib.Core.Bool.{Bool, true, false}
use mathlib.Core.List.{List, [], ◌∷◌, Perm}
use mathlib.Core.List.Perm
use autosuggest_core.Base.Tests.{if◌then◌else◌, Bool-cases}
use autosuggest_core.Base.Lists.{All, All-map, AllPairs, All-take, take, length}
use autosuggest_core.Base.Member.{In, here, there, All-In, In-All}

-- `a` may stand before `b`
abbrev pub not_gt : Ordering → Bool
not_gt Ordering.gt = false
not_gt _ = true

-- `Ordering::then_with`
abbrev pub then_with : Ordering → Ordering → Ordering
then_with Ordering.eq o = o
then_with o _ = o

abbrev pub reverse_order : Ordering → Ordering
reverse_order Ordering.lt = Ordering.gt
reverse_order Ordering.eq = Ordering.eq
reverse_order Ordering.gt = Ordering.lt

module _ {ℓ} {A : Type ℓ} (cmp : A → A → Ordering) where
  insert_sorted : A → List A → List A
  insert_sorted x [] = x ∷ []
  insert_sorted x (y ∷ ys) = if not_gt (cmp x y) then x ∷ y ∷ ys else y ∷ insert_sorted x ys

  unfoldable pub sort_by : List A → List A
  unfolding insert_sorted
  sort_by [] = []
  sort_by (x ∷ xs) = insert_sorted x (sort_by xs)

  -- Every earlier element may stand before every later one.
  abbrev pub IsSortedBy : List A → Type ℓ
  IsSortedBy [] = Unit
  IsSortedBy (x ∷ xs) = All (λ y. not_gt (cmp x y) ≡ true) xs × IsSortedBy xs

  insert_sorted-perm : (x : A) (xs : List A) → Perm (insert_sorted x xs) (x ∷ xs)
  unfolding insert_sorted
  insert_sorted-perm x [] = Perm.rfl
  insert_sorted-perm x (y ∷ ys) = elim (Bool-cases (not_gt (cmp x y))) [
    | inl e ↦ rw e Perm.rfl
    | inr e ↦ rw e (Perm.trans (Perm.cons y (insert_sorted-perm x ys)) (Perm.swap x y ys))
  ]

  pub sort_by-perm : (xs : List A) → Perm (sort_by xs) xs
  unfolding sort_by
  sort_by-perm [] = Perm.rfl
  sort_by-perm (x ∷ xs) =
      Perm.trans (insert_sorted-perm x (sort_by xs)) (Perm.cons x (sort_by-perm xs))

  In-insert_sorted : {a : A} (x : A) (xs : List A) → In a (insert_sorted x xs) → In a (x ∷ xs)
  unfolding insert_sorted
  In-insert_sorted x [] m = m
  In-insert_sorted {a} x (y ∷ ys) m = elim (Bool-cases (not_gt (cmp x y))) [
    | inl e ↦ rw e at m
    | inr e ↦ later (In-insert_sorted x ys) (rw e at m)
  ]
    where
      behind : In a (x ∷ ys) → In a (x ∷ y ∷ ys)
      behind (here e) = here e
      behind (there n) = there (there n)

      later :
          (In a (insert_sorted x ys) → In a (x ∷ ys))
          → In a (y ∷ insert_sorted x ys)
          → In a (x ∷ y ∷ ys)
      later ih (here e) = there (here e)
      later ih (there n) = behind (ih n)

  pub In-sort_by : {a : A} (xs : List A) → In a (sort_by xs) → In a xs
  unfolding sort_by
  In-sort_by [] m = m
  In-sort_by {a} (x ∷ xs) m = later (In-sort_by xs) (In-insert_sorted x (sort_by xs) m)
    where
      later : (In a (sort_by xs) → In a xs) → In a (x ∷ sort_by xs) → In a (x ∷ xs)
      later ih (here e) = here e
      later ih (there n) = there (ih n)

  insert_sorted-In : {a : A} (x : A) (xs : List A) → In a (x ∷ xs) → In a (insert_sorted x xs)
  unfolding insert_sorted
  insert_sorted-In x [] m = m
  insert_sorted-In {a} x (y ∷ ys) m = elim (Bool-cases (not_gt (cmp x y))) [
    | inl e ↦ rw e m
    | inr e ↦ rw e (later (insert_sorted-In x ys) m)
  ]
    where
      later :
          (In a (x ∷ ys) → In a (insert_sorted x ys))
          → In a (x ∷ y ∷ ys)
          → In a (y ∷ insert_sorted x ys)
      later ih (here e) = there (ih (here e))
      later ih (there (here e)) = here e
      later ih (there (there n)) = there (ih (there n))

  pub sort_by-In : {a : A} (xs : List A) → In a xs → In a (sort_by xs)
  unfolding sort_by
  sort_by-In [] m = elim m [ ]
  sort_by-In (x ∷ xs) (here e) = insert_sorted-In x (sort_by xs) (here e)
  sort_by-In (x ∷ xs) (there m) = insert_sorted-In x (sort_by xs) (there (sort_by-In xs m))

-- Sorting keeps a symmetric relation of all the elements.
module _ {ℓ κ} {A : Type ℓ} (cmp : A → A → Ordering) (R : A → A → Type κ) where
  insert_sorted-AllPairs :
      (x : A) (xs : List A)
      → ((a b : A) → R a b → R b a)
      → All (R x) xs
      → AllPairs R xs
      → AllPairs R (insert_sorted cmp x xs)
  unfolding insert_sorted
  insert_sorted-AllPairs x [] s h p = (tt, tt)
  insert_sorted-AllPairs x (y ∷ ys) s h p = elim (Bool-cases (not_gt (cmp x y))) [
    | inl e ↦ rw e (h, p)
    | inr e ↦ rw e (
      All-In (R y) (insert_sorted cmp x ys)
          (λ a m. In-All (R y) (x ∷ ys) (s x y h.0, p.0) (In-insert_sorted cmp x ys m)),
      insert_sorted-AllPairs x ys s h.1 p.1,
    )
  ]

  pub sort_by-AllPairs :
      (xs : List A) → ((a b : A) → R a b → R b a) → AllPairs R xs → AllPairs R (sort_by cmp xs)
  unfolding sort_by
  sort_by-AllPairs [] s h = tt
  sort_by-AllPairs (x ∷ xs) s h =
      insert_sorted-AllPairs x (sort_by cmp xs) s
        (All-In (R x) (sort_by cmp xs) (λ a m. In-All (R x) xs h.0 (In-sort_by cmp xs m)))
        (sort_by-AllPairs xs s h.1)

-- What `sort_by` asks of its comparison: a total preorder.
pub record IsPreorder {ℓ} {A : Type ℓ} (cmp : A → A → Ordering) : Type ℓ where
  pub total : (a b : A) → not_gt (cmp a b) ≡ false → not_gt (cmp b a) ≡ true
  pub trans :
      (a b c : A) → not_gt (cmp a b) ≡ true → not_gt (cmp b c) ≡ true → not_gt (cmp a c) ≡ true

module _ {ℓ} {A : Type ℓ} {cmp : A → A → Ordering} (p : IsPreorder cmp) where
  below-All :
      (x y : A) (ys : List A)
      → not_gt (cmp x y) ≡ true
      → All (λ z. not_gt (cmp y z) ≡ true) ys
      → All (λ z. not_gt (cmp x z) ≡ true) ys
  below-All x y ys h k = All-map _ _ ys (λ z q. p.trans x y z h q) k

  below_insert :
      (x y : A) (ys : List A)
      → not_gt (cmp y x) ≡ true
      → All (λ z. not_gt (cmp y z) ≡ true) ys
      → All (λ z. not_gt (cmp y z) ≡ true) (insert_sorted cmp x ys)
  unfolding insert_sorted
  below_insert x y [] h k = (h, tt)
  below_insert x y (z ∷ zs) h k = elim (Bool-cases (not_gt (cmp x z))) [
    | inl e ↦ rw e (h, k)
    | inr e ↦ rw e (k.0, below_insert x y zs h k.1)
  ]

  insert_sorted-IsSortedBy :
      (x : A) (xs : List A) → IsSortedBy cmp xs → IsSortedBy cmp (insert_sorted cmp x xs)
  unfolding insert_sorted
  insert_sorted-IsSortedBy x [] s = (tt, tt)
  insert_sorted-IsSortedBy x (y ∷ ys) s = elim (Bool-cases (not_gt (cmp x y))) [
    | inl e ↦ rw e ((e, below-All x y ys e s.0), s)
    | inr e ↦ rw e (below_insert x y ys (p.total x y e) s.0, insert_sorted-IsSortedBy x ys s.1)
  ]

  -- The sorted list ascends.
  pub sort_by-IsSortedBy : (xs : List A) → IsSortedBy cmp (sort_by cmp xs)
  unfolding sort_by
  sort_by-IsSortedBy [] = tt
  sort_by-IsSortedBy (x ∷ xs) = insert_sorted-IsSortedBy x (sort_by cmp xs) (sort_by-IsSortedBy xs)

module _ {ℓ} {A : Type ℓ} (cmp : A → A → Ordering) where
  pub IsSortedBy-take : (n : ℕ) (xs : List A) → IsSortedBy cmp xs → IsSortedBy cmp (take n xs)
  IsSortedBy-take zero xs s = tt
  IsSortedBy-take (suc n) [] s = tt
  IsSortedBy-take (suc n) (x ∷ xs) s = (All-take _ n xs s.0, IsSortedBy-take n xs s.1)

  -- What `take` drops of a sorted list, it drops for n elements that may stand before it.
  pub take-keeps :
      (n : ℕ) (xs : List A) {k : A}
      → IsSortedBy cmp xs
      → In k xs
      → In k (take n xs)
        ⊎ ((length (take n xs) ≡ n) × All (λ c. not_gt (cmp c k) ≡ true) (take n xs))
  take-keeps zero xs s m = inr (refl, tt)
  take-keeps (suc n) [] s m = elim m [ ]
  take-keeps (suc n) (x ∷ xs) s (here q) = inl (here q)
  take-keeps (suc n) (x ∷ xs) s (there m) = elim (take-keeps n xs s.1 m) [
    | inl h ↦ inl (there h)
    | inr (e, h) ↦ inr (ap suc e, (In-All _ xs s.0 m, h))
  ]
