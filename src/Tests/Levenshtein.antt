-- ===== src/Tests/Levenshtein.antt =====
-- crates/core/src/correct/levenshtein.rs at concrete words.
use autosuggest_core.Text.{codes}
use autosuggest_core.Levenshtein.{distance}
use autosuggest_core.Levenshtein.Edits.{IsDistance}
use autosuggest_core.Levenshtein.Rows.{distance-IsDistance}

distance-IsDistance_example :
    IsDistance (codes "comit") (codes "commit") (distance (codes "comit") (codes "commit"))
distance-IsDistance_example = distance-IsDistance (codes "comit") (codes "commit")
