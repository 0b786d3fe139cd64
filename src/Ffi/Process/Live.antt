-- ===== src/Ffi/Process/Live.antt =====
-- crates/ffi/src/lib.rs: the heap of a process against what a caller holds.
use autosuggest_core.Ffi.Strings.{IsZeroFree}
use autosuggest_core.Base.{
  subst, ==_iff, ◌⊎◌, ◌≡◌, ◌≢◌, refl, ap, ◌∙◌, ℕ, ◌==◌, not, false, List, ◌∷◌, Option, none, some,
  arith, Bool-cases, Option-cases, inl, inr, In, here, there, filter, In-filter, filter-In,
}
use autosuggest_core.Ffi.{OnceLock}
use autosuggest_core.Text.{Text}
use autosuggest_core.Ffi.Process.{Heap, Process, write, string_free}

-- What a caller holds, newest first: the pointers that it was handed and has not given back, and
-- the string that it got at each.
abbrev pub Held : Type 0
Held = List (ℕ × Text)

abbrev pub give_back : ℕ → Held → Held
give_back p = filter (λ h. not (h.0 == p))

-- What is allocated is what the caller holds.
pub record IsOwned (held : Held) (process : Process) : Type 0 where
  pub live : (p : ℕ) (s : Text) → In (p, s) held → process.heap p ≡ some s
  pub kept : (p : ℕ) (s : Text) → process.heap p ≡ some s → In (p, s) held
  pub no_null : process.heap 0 ≡ none
  pub c_strings : (p : ℕ) (s : Text) → process.heap p ≡ some s → IsZeroFree s

-- What stands at an address after a write: what was written there, or what stood there.
write-cases :
    (heap : Heap) (p q : ℕ) (c : Option Text) {t : Text}
    → write heap p c q ≡ some t
    → ((q ≡ p) × (c ≡ some t)) ⊎ (((q == p) ≡ false) × (heap q ≡ some t))
unfolding write
write-cases heap p q c h = elim (Bool-cases (q == p)) [
  | inl e ↦ inl ((==_iff q p).0 e, rw (write, e) at h)
  | inr e ↦ inr (e, rw (write, e) at h)
]

write_self : (heap : Heap) (p : ℕ) (c : Option Text) → write heap p c p ≡ c
unfolding write
write_self heap p c = ground arith

write_other :
    (heap : Heap) (p q : ℕ) (c : Option Text) → (q == p) ≡ false → write heap p c q ≡ heap q
unfolding write
write_other heap p q c e = rw (write, e) refl

module _ {held : Held} {process : Process} (own : IsOwned held process) (p : ℕ) where
  free_address : process.heap p ≡ none → (q : ℕ) (t : Text) → In (q, t) held → (q == p) ≡ false
  free_address hp q t m = elim (Bool-cases (q == p)) [
    | inl e ↦ absurd (
        let k : q ≡ p = (==_iff q p).0 e in
        let l : process.heap p ≡ some t = rw k at (own.live q t m) in cc)
    | inr e ↦ e
  ]

  -- A string at an address that was free joins what is held.
  pub allocated-IsOwned :
      (cell : OnceLock) (s : Text)
      → p ≢ 0
      → process.heap p ≡ none
      → IsZeroFree s
      → IsOwned ((p, s) ∷ held) (record { engine = cell; heap = write process.heap p (some s) })
  allocated-IsOwned cell s h0 hp hs = record {
    live = live;
    kept = λ q t e. elim (write-cases process.heap p q (some s) e) [
      | inl (k, l) ↦ here (let j : s ≡ t = cc in rw (k, j) refl)
      | inr (k, l) ↦ there (own.kept q t l)
    ];
    no_null = write_other process.heap p 0 (some s) (ground arith) ∙ own.no_null;
    c_strings = λ q t e. elim (write-cases process.heap p q (some s) e) [
      | inl (k, l) ↦ (let j : s ≡ t = cc in subst IsZeroFree j hs)
      | inr (k, l) ↦ own.c_strings q t l
    ];
  }
    where
      live :
          (q : ℕ) (t : Text) → In (q, t) ((p, s) ∷ held) → write process.heap p (some s) q ≡ some t
      live q t (here e) =
          let k : q ≡ p = ap (λ z. z.0) e in
          let j : t ≡ s = ap (λ z. z.1) e in rw (k, j) (write_self process.heap p (some s))
      live q t (there m) =
          write_other process.heap p q (some s) (free_address hp q t m) ∙ own.live q t m

  -- What is freed leaves it.
  dropped-IsOwned : IsOwned (give_back p held) (record process { heap = write process.heap p none })
  unfolding write
  dropped-IsOwned = record {
    live = λ q t m.
        (let (n, k) = In-filter (λ h. not (h.0 == p)) held m in
          write_other process.heap p q none (ground arith) ∙ own.live q t n);
    kept = λ q t e. elim (write-cases process.heap p q none e) [
      | inl (k, l) ↦ absurd (cc)
      | inr (k, l) ↦ filter-In (λ h. not (h.0 == p)) held (own.kept q t l) (rw k refl)
    ];
    no_null = (elim (Bool-cases (0 == p)) [
      | inl e ↦ rw (write, e) refl
      | inr e ↦ rw (write, e) own.no_null
    ]);
    c_strings = λ q t e. elim (write-cases process.heap p q none e) [
      | inl (k, l) ↦ absurd (cc)
      | inr (k, l) ↦ own.c_strings q t l
    ];
  }

-- To free null is to do nothing.
null-IsOwned :
    {held : Held} {process : Process} → IsOwned held process → IsOwned (give_back 0 held) process
null-IsOwned {held} {process} own = record {
  live = λ q t m. own.live q t (In-filter (λ h. not (h.0 == 0)) held m).0;
  kept = λ q t e.
      filter-In (λ h. not (h.0 == 0)) held (own.kept q t e)
        (elim (Bool-cases (q == 0)) [
          | inl k ↦ absurd (
              let j : q ≡ 0 = (==_iff q 0).0 k in
              let l : process.heap 0 ≡ some t = rw j at e in let n = own.no_null in cc)
          | inr k ↦ rw k refl
        ]);
  no_null = own.no_null;
  c_strings = own.c_strings;
}

-- What `string_free` does: nothing to null, and a live string is dropped.
string_free_cases :
    (p : ℕ) (process after : Process)
    → string_free p process ≡ some after
    → ((p ≡ 0) × (after ≡ process)) ⊎ (after ≡ record process { heap = write process.heap p none })
unfolding string_free
string_free_cases p process after h = elim (Bool-cases (p == 0)) [
  | inl e ↦ inl ((==_iff p 0).0 e, (let k : some process ≡ some after = rw e at h in cc))
  | inr e ↦ elim (Option-cases (process.heap p)) [
    | inl k ↦ absurd (let l = rw (e, k) at h in cc)
    | inr (s, k) ↦ inr (let l = rw (e, k) at h in cc)
  ]
]

pub freed-IsOwned :
    (held : Held) (process after : Process) (p : ℕ)
    → string_free p process ≡ some after
    → IsOwned held process
    → IsOwned (give_back p held) after
freed-IsOwned held process after p h own = elim (string_free_cases p process after h) [
  | inl (k, l) ↦ rw (k, l) (null-IsOwned own)
  | inr l ↦ rw l (dropped-IsOwned own p)
]
