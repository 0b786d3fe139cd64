-- ===== src/Tests/Cache.antt =====
-- crates/data/src/cache.rs at concrete stores.
use autosuggest_core.Base.{List, [], ◌∷◌}
use autosuggest_core.Text.{codes}
use autosuggest_core.Cache.{get}
use autosuggest_core.Cache.Latest.{Store, replay, Kept, get-replay}

-- Branches of `/repo`, stored twice, and those of another repository.
abbrev stores : List Store
stores =
    record {
      run = codes "git" ∷ codes "branch" ∷ [];
      cwd = codes "/repo";
      values = codes "main" ∷ [];
      ttl = 50;
      now = 100;
    }
    ∷ record {
      run = codes "git" ∷ codes "branch" ∷ [];
      cwd = codes "/other";
      values = codes "dev" ∷ [];
      ttl = 500;
      now = 10;
    }
    ∷ []

get-replay_example :
    Kept
      (codes "git" ∷ codes "branch" ∷ [])
      (codes "/other")
      120
      stores
      (get (replay stores) (codes "git" ∷ codes "branch" ∷ []) (codes "/other") 120)
get-replay_example = get-replay stores (codes "git" ∷ codes "branch" ∷ []) (codes "/other") 120
