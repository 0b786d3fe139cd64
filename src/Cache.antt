-- ===== src/Cache.antt =====
-- crates/data/src/cache.rs: the results of generators, kept until they expire.
-- An `Instant` and a `Duration` are numbers of nanoseconds; the map is a list of its entries with one
-- for each key; the mutex is what its guard protects and whether it is poisoned.
pub mod Latest
use autosuggest_core.Base.{
  ℕ, ◌+◌, ◌==◌, Bool, true, false, ◌&&◌, List, [], ◌∷◌, Option, none, some, ltb, if◌then◌else◌,
  ◌>>=◌,
}
use autosuggest_core.Text.{Text, text_eq}

pub record CacheKey : Type 0 where
  pub run : List Text
  pub cwd : Text

pub record CacheEntry : Type 0 where
  pub values : List Text
  pub expires_at : ℕ

pub record TtlCache : Type 0 where
  pub poisoned : Bool
  pub entries : List (CacheKey × CacheEntry)

-- `TtlCache::new`
abbrev pub new : TtlCache
new = record { poisoned = false; entries = [] }

unfoldable pub same_texts : List Text → List Text → Bool
unfolding text_eq
same_texts [] [] = true
same_texts (a ∷ xs) (b ∷ bs) = text_eq a b && same_texts xs bs
same_texts _ _ = false

unfoldable pub same_key : CacheKey → CacheKey → Bool
unfolding same_texts text_eq
same_key a b = same_texts a.run b.run && text_eq a.cwd b.cwd

-- `HashMap::get` and `HashMap::insert`
unfoldable pub lookup : List (CacheKey × CacheEntry) → CacheKey → Option CacheEntry
unfolding same_key
lookup [] key = none
lookup ((k, e) ∷ entries) key = if same_key k key then some e else lookup entries key

unfoldable pub insert :
    List (CacheKey × CacheEntry) → CacheKey → CacheEntry → List (CacheKey × CacheEntry)
unfolding same_key
insert [] key entry = (key, entry) ∷ []
insert ((k, e) ∷ entries) key entry =
    let rest = insert entries key entry in
    if same_key k key then (k, entry) ∷ entries else (k, e) ∷ rest

unfoldable pub get : TtlCache → List Text → Text → ℕ → Option (List Text)
unfolding lookup
get cache run cwd now = if cache.poisoned then none else (do
  entry ← lookup cache.entries (record { run = run; cwd = cwd })
  if ltb now entry.expires_at then some entry.values else none)

unfoldable pub put : TtlCache → List Text → Text → List Text → ℕ → ℕ → TtlCache
unfolding insert
put cache run cwd values ttl now =
    if ttl == 0 then cache else if cache.poisoned then cache else record cache {
      entries =
          insert cache.entries (record { run = run; cwd = cwd })
            (record { values = values; expires_at = now + ttl });
    }
