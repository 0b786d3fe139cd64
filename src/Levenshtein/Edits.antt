-- ===== src/Levenshtein/Edits.antt =====
-- Edit scripts, and the recursive distance, which is the length of a shortest one.
use autosuggest_core.Base.{
  leb, ℕ, suc, ◌+◌, ◌≤◌, min, ◌≡◌, refl, subst, ◌∙◌, [], ◌∷◌, ◌++◌, length, arith, Bool-cases, inl,
  inr, ◌==◌, if◌then◌else◌, append-nil,
}
use autosuggest_core.Text.{Text}
use autosuggest_core.Levenshtein.{cost}

-- `Edits s t n`: some `n` insertions, deletions and substitutions of characters take `s` to `t`.
pub data Edits : Text → Text → ℕ → Type 0 where
  done : Edits [] [] 0
  keep : {s t : Text} {n : ℕ} (c : ℕ) → Edits s t n → Edits (c ∷ s) (c ∷ t) n
  substitute : {s t : Text} {n : ℕ} (c d : ℕ) → Edits s t n → Edits (c ∷ s) (d ∷ t) (suc n)
  delete : {s t : Text} {n : ℕ} (c : ℕ) → Edits s t n → Edits (c ∷ s) t (suc n)
  insert : {s t : Text} {n : ℕ} (d : ℕ) → Edits s t n → Edits s (d ∷ t) (suc n)

pub Edits-flip : {s t : Text} {n : ℕ} → Edits s t n → Edits t s n
Edits-flip done = done
Edits-flip (keep c p) = keep c (Edits-flip p)
Edits-flip (substitute c d p) = substitute d c (Edits-flip p)
Edits-flip (delete c p) = insert c (Edits-flip p)
Edits-flip (insert d p) = delete d (Edits-flip p)

-- `cs` backwards, in front of `tail`.
unfoldable pub reverse_onto : Text → Text → Text
reverse_onto [] tail = tail
reverse_onto (c ∷ cs) tail = reverse_onto cs (c ∷ tail)

-- The distance by its recursion.
unfoldable pub lev : Text → Text → ℕ
lev [] t = length t
lev (c ∷ s) [] = suc (length s)
lev (c ∷ s) (d ∷ t) = min (min (lev s (d ∷ t) + 1) (lev (c ∷ s) t + 1)) (lev s t + cost c d)

lev-nil : (s : Text) → lev s [] ≡ length s
unfolding lev
lev-nil [] = refl
lev-nil (c ∷ s) = refl

-- No script is shorter than the recursive distance.
pub lev-le : {s t : Text} {n : ℕ} → Edits s t n → lev s t ≤ n
unfolding lev cost
lev-le done = omega arith
lev-le (keep c p) = ground (arith, lev-le p)
lev-le (substitute c d p) = ground (arith, lev-le p)
lev-le (delete {s} {t = []} c p) = omega (arith, lev-le p, lev-nil s)
lev-le (delete {t = d ∷ t} c p) = ground (arith, lev-le p)
lev-le (insert {s = []} d p) = ground (arith, lev-le p)
lev-le (insert {s = c ∷ s} d p) = ground (arith, lev-le p)

pub Edits-insert_all : (t : Text) → Edits [] t (length t)
Edits-insert_all [] = done
Edits-insert_all (d ∷ t) = insert d (Edits-insert_all t)

pub Edits-delete_all : (s : Text) → Edits s [] (length s)
Edits-delete_all s = Edits-flip (Edits-insert_all s)

Edits-min : {s t : Text} {m n : ℕ} → Edits s t m → Edits s t n → Edits s t (min m n)
Edits-min {m} {n} p q = elim (Bool-cases (leb m n)) [
  | inl e ↦ subst (Edits _ _) {x = m} {y = min m n} (ground arith) p
  | inr e ↦ subst (Edits _ _) {x = n} {y = min m n} (ground arith) q
]

Edits-replace : {s t : Text} {n : ℕ} (c d : ℕ) → Edits s t n → Edits (c ∷ s) (d ∷ t) (n + cost c d)
unfolding cost
Edits-replace {s} {t} {n} c d p = elim (Bool-cases (c == d)) [
  | inl e ↦
      let q : c ≡ d = ground arith in
      subst (λ x. Edits (c ∷ s) (x ∷ t) (n + (if c == x then 0 else 1))) q
        (subst (Edits (c ∷ s) (c ∷ t)) {x = n} {y = n + (if c == c then 0 else 1)} (ground arith)
          (keep c p))
  | inr e ↦
      subst (Edits (c ∷ s) (d ∷ t)) {x = suc n} {y = n + (if c == d then 0 else 1)} (ground arith)
        (substitute c d p)
]

Edits-suc : {s t : Text} {n : ℕ} → Edits s t (suc n) → Edits s t (n + 1)
Edits-suc {s} {t} {n} p = subst (Edits s t) {x = suc n} {y = n + 1} (omega arith) p

-- Some script is as short as the recursive distance.
pub Edits-lev : (s t : Text) → Edits s t (lev s t)
unfolding lev
Edits-lev [] t = Edits-insert_all t
Edits-lev (c ∷ s) [] = Edits-delete_all (c ∷ s)
Edits-lev (c ∷ s) (d ∷ t) =
    Edits-min
      (Edits-min (Edits-suc (delete c (Edits-lev s (d ∷ t))))
        (Edits-suc (insert d (Edits-lev (c ∷ s) t))))
      (Edits-replace c d (Edits-lev s t))

-- A script may be read from the end.
Edits-shift : {s t : Text} (m n : ℕ) → Edits s t (m + suc n) → Edits s t (suc m + n)
Edits-shift {s} {t} m n p = subst (Edits s t) {x = m + suc n} {y = suc m + n} (omega arith) p

pub Edits-reverse_onto :
    {s t u v : Text} {m n : ℕ}
    → Edits s t m
    → Edits u v n
    → Edits (reverse_onto s u) (reverse_onto t v) (m + n)
unfolding reverse_onto
Edits-reverse_onto {u} {v} {n} done q = subst (Edits u v) {x = n} {y = 0 + n} (omega arith) q
Edits-reverse_onto (keep c p) q = Edits-reverse_onto p (keep c q)
Edits-reverse_onto {n} (substitute {n = k} c d p) q =
    Edits-shift k n (Edits-reverse_onto p (substitute c d q))
Edits-reverse_onto {n} (delete {n = k} c p) q = Edits-shift k n (Edits-reverse_onto p (delete c q))
Edits-reverse_onto {n} (insert {n = k} d p) q = Edits-shift k n (Edits-reverse_onto p (insert d q))

unfoldable pub backwards : Text → Text
backwards s = reverse_onto s []

Edits-backwards : {s t : Text} {n : ℕ} → Edits s t n → Edits (backwards s) (backwards t) n
unfolding backwards
Edits-backwards {s} {t} {n} p =
    subst (Edits (reverse_onto s []) (reverse_onto t [])) {x = n + 0} {y = n} (omega arith)
      (Edits-reverse_onto p done)

reverse_onto-reverse_onto :
    (s u v : Text) → reverse_onto (reverse_onto s u) v ≡ reverse_onto u (s ++ v)
unfolding reverse_onto
reverse_onto-reverse_onto [] u v = refl
reverse_onto-reverse_onto (c ∷ s) u v = reverse_onto-reverse_onto s (c ∷ u) v

backwards-backwards : (s : Text) → backwards (backwards s) ≡ s
unfolding backwards
backwards-backwards s = reverse_onto-reverse_onto s [] [] ∙ (unfold reverse_onto in append-nil s)

-- `n` is the length of a shortest script.
pub record IsDistance (s t : Text) (n : ℕ) : Type 0 where
  pub script : Edits s t n
  pub shortest : (m : ℕ) → Edits s t m → n ≤ m

-- The recursive distance of the reversed texts, which is what the rows hold, is the distance.
pub IsDistance-backwards : (s t : Text) → IsDistance s t (lev (backwards s) (backwards t))
IsDistance-backwards s t = record {
  script =
      let p = Edits-backwards (Edits-lev (backwards s) (backwards t)) in
      subst (λ u. Edits u t (lev (backwards s) (backwards t))) (backwards-backwards s)
        (subst (λ u. Edits (backwards (backwards s)) u (lev (backwards s) (backwards t)))
          (backwards-backwards t) p);
  shortest = λ m p. lev-le (Edits-backwards p);
}

pub IsDistance-flip : {s t : Text} {n : ℕ} → IsDistance s t n → IsDistance t s n
IsDistance-flip d = record {
  script = Edits-flip d.script;
  shortest = λ m p. d.shortest m (Edits-flip p);
}

-- A script inserts at least the characters that the longer text has more.
pub Edits-length : {s t : Text} {n : ℕ} → Edits s t n → length t ≤ length s + n
Edits-length done = omega arith
Edits-length (keep c p) = omega (arith, Edits-length p)
Edits-length (substitute c d p) = omega (arith, Edits-length p)
Edits-length (delete c p) = omega (arith, Edits-length p)
Edits-length (insert d p) = omega (arith, Edits-length p)
