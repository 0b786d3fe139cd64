-- ===== src/Base/Order.antt =====
-- Comparisons that are orders, and their lexicographic combination by `Ordering::then_with`.
use autosuggest_core.Base.Sort.{not_gt, then_with, reverse_order, IsPreorder}
use Prim.Native.Nat.{ℕ, compare, Ordering}
use mathlib.Core.Path.{◌≡◌, refl}
use mathlib.Core.Bool.{true, false}
use native.Mathlib.Omega.{arith}

-- A total preorder whose two directions agree.
pub record IsOrder {ℓ} {A : Type ℓ} (cmp : A → A → Ordering) : Type ℓ where
  pub flip : (a b : A) → cmp b a ≡ reverse_order (cmp a b)
  pub trans :
      (a b c : A) → not_gt (cmp a b) ≡ true → not_gt (cmp b c) ≡ true → not_gt (cmp a c) ≡ true

flip_then_with :
    (x u : Ordering) → then_with (reverse_order x) (reverse_order u) ≡ reverse_order (then_with x u)
flip_then_with Ordering.lt u = refl
flip_then_with Ordering.eq u = refl
flip_then_with Ordering.gt u = refl

not_gt_flip : (x : Ordering) → not_gt x ≡ false → not_gt (reverse_order x) ≡ true
not_gt_flip Ordering.lt h = absurd (cc)
not_gt_flip Ordering.eq h = absurd (cc)
not_gt_flip Ordering.gt h = refl

-- The values of two comparisons at (a, b), (b, c) and (a, c).
then_with_trans :
    (x y z u v w : Ordering)
    → (not_gt x ≡ true → not_gt y ≡ true → not_gt z ≡ true)
    → (not_gt y ≡ true → not_gt (reverse_order z) ≡ true → not_gt (reverse_order x) ≡ true)
    → (not_gt (reverse_order z) ≡ true → not_gt x ≡ true → not_gt (reverse_order y) ≡ true)
    → (not_gt u ≡ true → not_gt v ≡ true → not_gt w ≡ true)
    → not_gt (then_with x u) ≡ true
    → not_gt (then_with y v) ≡ true
    → not_gt (then_with z w) ≡ true
then_with_trans Ordering.gt y z u v w p q r s h k = absurd (cc)
then_with_trans x Ordering.gt z u v w p q r s h k = absurd (cc)
then_with_trans Ordering.lt y Ordering.lt u v w p q r s h k = refl
then_with_trans Ordering.eq y Ordering.lt u v w p q r s h k = refl
then_with_trans Ordering.lt Ordering.lt Ordering.eq u v w p q r s h k =
    absurd (let e = q refl refl in cc)
then_with_trans Ordering.lt Ordering.eq Ordering.eq u v w p q r s h k =
    absurd (let e = q refl refl in cc)
then_with_trans Ordering.eq Ordering.lt Ordering.eq u v w p q r s h k =
    absurd (let e = r refl refl in cc)
then_with_trans Ordering.eq Ordering.eq Ordering.eq u v w p q r s h k = s h k
then_with_trans Ordering.lt Ordering.lt Ordering.gt u v w p q r s h k =
    absurd (let e = p refl refl in cc)
then_with_trans Ordering.lt Ordering.eq Ordering.gt u v w p q r s h k =
    absurd (let e = p refl refl in cc)
then_with_trans Ordering.eq Ordering.lt Ordering.gt u v w p q r s h k =
    absurd (let e = p refl refl in cc)
then_with_trans Ordering.eq Ordering.eq Ordering.gt u v w p q r s h k =
    absurd (let e = p refl refl in cc)

module _ {ℓ} {A : Type ℓ} where
  pub then_with-IsOrder :
      {f g : A → A → Ordering} → IsOrder f → IsOrder g → IsOrder (λ a b. then_with (f a b) (g a b))
  then_with-IsOrder {f} {g} p q = record {
    flip = λ a b. rw (p.flip a b, q.flip a b) (flip_then_with (f a b) (g a b));
    trans = λ a b c h k.
        then_with_trans (f a b) (f b c) (f a c) (g a b) (g b c) (g a c) (p.trans a b c)
          (λ i j. rw (p.flip a b) at (p.trans b c a i (rw (p.flip a c) j)))
          (λ i j. rw (p.flip b c) at (p.trans c a b (rw (p.flip a c) i) j)) (q.trans a b c) h k;
  }

  pub IsOrder-IsPreorder : {f : A → A → Ordering} → IsOrder f → IsPreorder f
  IsOrder-IsPreorder {f} p = record {
    total = λ a b h. rw (p.flip a b) (not_gt_flip (f a b) h);
    trans = p.trans;
  }

-- The descending order of a number.
pub descending-IsOrder {ℓ} : {A : Type ℓ} (f : A → ℕ) → IsOrder (λ (a b : A). compare (f b) (f a))
descending-IsOrder f = record { flip = λ a b. ground arith; trans = λ a b c h k. ground arith }
