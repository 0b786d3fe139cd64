-- ===== src/Cache/Latest.antt =====
-- crates/data/src/cache.rs: what the cache promises after any sequence of stores.
use autosuggest_core.Base.{
  ◌≤◌, ◌<◌, ap, ◌≢◌, ◌≡◌, refl, sym, ap₂, ◌∙◌, ℕ, ◌+◌, ◌==◌, Bool, true, false, List, [], ◌∷◌,
  Option, none, some, ltb, if◌then◌else◌, inl, inr, arith, Bool-cases,
}
use autosuggest_core.Text.{Text}
use autosuggest_core.Text.Laws.{eq_of_text_eq, text_eq_refl}
use autosuggest_core.Cache.{
  CacheKey, CacheEntry, TtlCache, new, same_texts, same_key, lookup, insert, get, put,
}

-- The arguments of a call of `put`.
pub record Store : Type 0 where
  pub run : List Text
  pub cwd : Text
  pub values : List Text
  pub ttl : ℕ
  pub now : ℕ

abbrev pub store : TtlCache → Store → TtlCache
store cache s = put cache s.run s.cwd s.values s.ttl s.now

-- The latest store stands first.
abbrev pub replay : List Store → TtlCache
replay [] = new
replay (s ∷ earlier) = store (replay earlier) s

-- The latest store of the key that has a time to live decides, alone.
abbrev latest : List Store → List Text → Text → ℕ → Option (List Text)
latest [] run cwd now = none
latest (s ∷ earlier) run cwd now =
    if s.ttl == 0
    then latest earlier run cwd now
    else if same_key (record { run = s.run; cwd = s.cwd }) (record { run = run; cwd = cwd })
    then (if ltb now (s.now + s.ttl) then some s.values else none)
    else latest earlier run cwd now

eq_of_same_texts : (xs bs : List Text) → same_texts xs bs ≡ true → xs ≡ bs
unfolding same_texts
eq_of_same_texts [] [] h = refl
eq_of_same_texts [] (b ∷ bs) h = absurd (cc)
eq_of_same_texts (a ∷ xs) [] h = absurd (cc)
eq_of_same_texts (a ∷ xs) (b ∷ bs) h =
    ap₂ (λ t ts. t ∷ ts) (eq_of_text_eq a b (ground arith)) (eq_of_same_texts xs bs (ground arith))

same_texts_refl : (xs : List Text) → same_texts xs xs ≡ true
unfolding same_texts
same_texts_refl [] = refl
same_texts_refl (a ∷ xs) = ground (arith, text_eq_refl a, same_texts_refl xs)

eq_of_same_key : (a b : CacheKey) → same_key a b ≡ true → a ≡ b
unfolding same_key
eq_of_same_key a b h =
    let p = eq_of_same_texts a.run b.run (ground arith) in
    let q = eq_of_text_eq a.cwd b.cwd (ground arith) in λ i. record { run = p i; cwd = q i }

same_key_refl : (a : CacheKey) → same_key a a ≡ true
unfolding same_key
same_key_refl a = ground (arith, same_texts_refl a.run, text_eq_refl a.cwd)

if_again {ℓ} :
    {A : Type ℓ} (b : Bool) (x y z : A)
    → (if b then x else z) ≡ (if b then x else if b then y else z)
if_again true x y z = refl
if_again false x y z = refl

if_swap {ℓ} :
    {A : Type ℓ} (a b : Bool) (x y z : A)
    → (a ≡ true → b ≡ false)
    → (if a then x else if b then y else z) ≡ (if b then y else if a then x else z)
if_swap false b x y z h = refl
if_swap true true x y z h = absurd (let k = h refl in cc)
if_swap true false x y z h = refl

apart_lem :
    (k key other : CacheKey)
    → same_key k key ≡ false
    → same_key k other ≡ true
    → same_key key other ≡ false
apart_lem k key other h e = elim (Bool-cases (same_key key other)) [
  | inr q ↦ q
  | inl q ↦ absurd (
      let r : k ≡ key = eq_of_same_key k other e ∙ sym (eq_of_same_key key other q) in
      let s = same_key_refl key in let h' = rw r at h in cc)
]

lookup-insert :
    (entries : List (CacheKey × CacheEntry)) (key other : CacheKey) (entry : CacheEntry)
    → lookup (insert entries key entry) other
      ≡ (if same_key key other then some entry else lookup entries other)
unfolding lookup insert
lookup-insert [] key other entry = refl
lookup-insert ((k, e) ∷ entries) key other entry = elim (Bool-cases (same_key k key)) [
  | inl h ↦
      rw (h, eq_of_same_key k key h)
        (if_again (same_key key other) (some entry) (some e) (lookup entries other))
  | inr h ↦
      rw (h, lookup-insert entries key other entry)
        (if_swap (same_key k other) (same_key key other) (some e) (some entry)
          (lookup entries other) (apart_lem k key other h))
]

replay-unpoisoned : (stores : List Store) → (replay stores).poisoned ≡ false
unfolding put
replay-unpoisoned [] = refl
replay-unpoisoned (s ∷ earlier) = elim (Bool-cases (s.ttl == 0)) [
  | inl e ↦ rw (e, replay-unpoisoned earlier) refl
  | inr e ↦ rw (e, replay-unpoisoned earlier) refl
]

module _ (cache : TtlCache) (s : Store) (run : List Text) (cwd : Text) (now : ℕ) where
  get-ignored : (s.ttl == 0) ≡ true → get (store cache s) run cwd now ≡ get cache run cwd now
  unfolding put
  get-ignored e = rw (put, e) refl

  -- The look-up in the map after a store.
  lookup_lem :
      cache.poisoned ≡ false
      → (s.ttl == 0) ≡ false
      → (b : Bool)
      → same_key (record { run = s.run; cwd = s.cwd }) (record { run = run; cwd = cwd }) ≡ b
      → get (store cache s) run cwd now ≡ (
          if b
          then (if ltb now (s.now + s.ttl) then some s.values else none)
          else get cache run cwd now)
  unfolding put get
  lookup_lem p e true k =
      rw
        (
          put,
          get,
          e,
          p,
          lookup-insert cache.entries (record { run = s.run; cwd = s.cwd })
              (record { run = run; cwd = cwd })
              (record { values = s.values; expires_at = s.now + s.ttl }),
          k,
        )
        refl
  lookup_lem p e false k =
      rw
        (
          put,
          get,
          e,
          p,
          lookup-insert cache.entries (record { run = s.run; cwd = s.cwd })
              (record { run = run; cwd = cwd })
              (record { values = s.values; expires_at = s.now + s.ttl }),
          k,
        )
        refl

get-latest :
    (stores : List Store) (run : List Text) (cwd : Text) (now : ℕ)
    → get (replay stores) run cwd now ≡ latest stores run cwd now
unfolding get lookup
get-latest [] run cwd now = refl
get-latest (s ∷ earlier) run cwd now = elim (Bool-cases (s.ttl == 0)) [
  | inl e ↦ rw e (get-ignored (replay earlier) s run cwd now e ∙ get-latest earlier run cwd now)
  | inr e ↦
      rw (e, sym (get-latest earlier run cwd now))
        (lookup_lem (replay earlier) s run cwd now (replay-unpoisoned earlier) e _ refl)
]

-- What is kept for `run` and `cwd` at `now` behind the stores, of which the latest stands first: a
-- store without a time to live, or of another command or another directory, is passed over.
pub data Kept (run : List Text) (cwd : Text) (now : ℕ)
    : List Store → Option (List Text) → Type 0 where
  empty : Kept run cwd now [] none
  ignored :
      {s : Store} {earlier : List Store} {kept : Option (List Text)}
      → s.ttl ≡ 0
      → Kept run cwd now earlier kept
      → Kept run cwd now (s ∷ earlier) kept
  other :
      {s : Store} {earlier : List Store} {kept : Option (List Text)}
      → ¬ ((s.run ≡ run) × (s.cwd ≡ cwd))
      → Kept run cwd now earlier kept
      → Kept run cwd now (s ∷ earlier) kept
  fresh :
      {s : Store} {earlier : List Store}
      → s.ttl ≢ 0
      → s.run ≡ run
      → s.cwd ≡ cwd
      → now < s.now + s.ttl
      → Kept run cwd now (s ∷ earlier) (some s.values)
  expired :
      {s : Store} {earlier : List Store}
      → s.ttl ≢ 0
      → s.run ≡ run
      → s.cwd ≡ cwd
      → s.now + s.ttl ≤ now
      → Kept run cwd now (s ∷ earlier) none

latest-Kept :
    (stores : List Store) (run : List Text) (cwd : Text) (now : ℕ)
    → Kept run cwd now stores (latest stores run cwd now)
latest-Kept [] run cwd now = Kept.empty
latest-Kept (s ∷ earlier) run cwd now =
    let key : CacheKey = record { run = s.run; cwd = s.cwd } in
    let sought : CacheKey = record { run = run; cwd = cwd } in
    elim (Bool-cases (s.ttl == 0)) [
      | inl e ↦ rw e (Kept.ignored (ground (arith, e)) (latest-Kept earlier run cwd now))
      | inr e ↦
          let t : s.ttl ≢ 0 = λ z. absurd (ground (arith, e, z)) in
          elim (Bool-cases (same_key key sought)) [
            | inr k ↦
                rw (e, k)
                  (Kept.other
                    (λ (a, b). absurd (
                      let q : key ≡ sought = (λ i. record { run = a i; cwd = b i }) in
                      let h = same_key_refl sought in let k' = rw q at k in cc))
                    (latest-Kept earlier run cwd now))
            | inl k ↦
                let q = eq_of_same_key key sought k in
                elim (Bool-cases (ltb now (s.now + s.ttl))) [
                  | inl l ↦
                      rw (e, k, l)
                        (Kept.fresh t (ap (λ z. z.run) q) (ap (λ z. z.cwd) q) (ground (arith, l)))
                  | inr l ↦
                      rw (e, k, l)
                        (Kept.expired t (ap (λ z. z.run) q) (ap (λ z. z.cwd) q) (ground (arith, l)))
                ]
          ]
    ]

-- After any stores into a new cache, a look-up gets what is kept for its command and directory: the
-- values of the latest store of the same command and the same directory that has a time to live, if
-- that is not over, and nothing if it is over or there is no such store. Neither stores of other keys
-- nor earlier stores of the same key matter.
pub get-replay :
    (stores : List Store) (run : List Text) (cwd : Text) (now : ℕ)
    → Kept run cwd now stores (get (replay stores) run cwd now)
get-replay stores run cwd now = rw (get-latest stores run cwd now) (latest-Kept stores run cwd now)

-- A look-up before the time to live is over finds what was stored last.
pub get-put :
    (cache : TtlCache) (run : List Text) (cwd : Text) (values : List Text) (ttl now later : ℕ)
    → cache.poisoned ≡ false
    → (ttl == 0) ≡ false
    → ltb later (now + ttl) ≡ true
    → get (put cache run cwd values ttl now) run cwd later ≡ some values
unfolding put get
get-put cache run cwd values ttl now later p e l =
    rw
      (
        put,
        get,
        e,
        p,
        lookup-insert cache.entries (record { run = run; cwd = cwd })
            (record { run = run; cwd = cwd }) (record { values = values; expires_at = now + ttl }),
        same_key_refl (record { run = run; cwd = cwd }),
        l,
      )
      refl
