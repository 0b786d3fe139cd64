-- ===== src/Base/Int.antt =====
-- Signed integers and their order.
use Prim.Native.Nat.{ℕ, zero, suc, compare, Ordering}
use mathlib.Core.Path.{◌≡◌, refl}
use mathlib.Core.Bool.{true, false}
use native.Mathlib.Omega.{arith}
use autosuggest_core.Base.Sort.{not_gt}

-- `negsuc n` is -(n + 1).
pub data ℤ : Type 0 where
  pos : ℕ → ℤ
  negsuc : ℕ → ℤ

abbrev pub int_cmp : ℤ → ℤ → Ordering
int_cmp (pos m) (pos n) = compare m n
int_cmp (pos m) (negsuc n) = Ordering.gt
int_cmp (negsuc m) (pos n) = Ordering.lt
int_cmp (negsuc m) (negsuc n) = compare n m

-- The negation of a natural number.
abbrev pub neg : ℕ → ℤ
neg zero = pos 0
neg (suc n) = negsuc n

pub int_cmp_total : (a b : ℤ) → not_gt (int_cmp a b) ≡ false → not_gt (int_cmp b a) ≡ true
int_cmp_total (pos m) (pos n) h = ground arith
int_cmp_total (pos m) (negsuc n) h = ground arith
int_cmp_total (negsuc m) (pos n) h = ground arith
int_cmp_total (negsuc m) (negsuc n) h = ground arith

pub int_cmp_trans :
    (a b c : ℤ)
    → not_gt (int_cmp a b) ≡ true
    → not_gt (int_cmp b c) ≡ true
    → not_gt (int_cmp a c) ≡ true
int_cmp_trans (pos a) (pos b) (pos c) h k = ground arith
int_cmp_trans (pos a) (pos b) (negsuc c) h k = absurd (cc)
int_cmp_trans (pos a) (negsuc b) c h k = absurd (cc)
int_cmp_trans (negsuc a) (pos b) (pos c) h k = refl
int_cmp_trans (negsuc a) (pos b) (negsuc c) h k = absurd (cc)
int_cmp_trans (negsuc a) (negsuc b) (pos c) h k = refl
int_cmp_trans (negsuc a) (negsuc b) (negsuc c) h k = ground arith
