-- ===== src/Tests/History.antt =====
-- crates/core/src/history.rs at concrete windows.
use autosuggest_core.Base.{◌≢◌, In, List, none, ℕ, ◌≡◌, true, [], ◌∷◌, some}
use autosuggest_core.Base.Int.{pos}
use autosuggest_core.Text.{Text, codes, starts_with}
use autosuggest_core.History.{HistoryEntry, HistoryWindow, distinct_recent_first, autosuggest}
use autosuggest_core.History.Dedupe.{summary, candidate_of}
use autosuggest_core.History.Sound.{IsRecorded, autosuggest-IsRecorded}
use autosuggest_core.History.Recent.{
  IsRecentFirst, chosen, firsts, autosuggest-chosen, distinct_recent_first-summary,
}

abbrev at_time : Text → Text → ℕ → HistoryEntry
at_time command cwd ts = record {
  command = command;
  cwd = some cwd;
  exit_code = some (pos 0);
  ts = some (pos ts);
}

abbrev commands : HistoryWindow
commands = record {
  entries =
      at_time (codes "git status") (codes "/home") 3
      ∷ at_time (codes "git push") (codes "/repo") 9
      ∷ at_time (codes "git status") (codes "/repo") 5
      ∷ [];
}

autosuggest-chosen_example :
    (order : List HistoryEntry) × (IsRecentFirst commands.entries order
      × (autosuggest (codes "git s") commands (some (codes "/repo"))
          ≡ chosen (codes "git s") (some (codes "/repo")) (firsts [] order)))
autosuggest-chosen_example = autosuggest-chosen (codes "git s") commands (some (codes "/repo"))

distinct_recent_first-summary_example :
    (order : List HistoryEntry) × (IsRecentFirst commands.entries order
      × ((command : Text)
          → candidate_of command (distinct_recent_first commands) ≡ summary command order))
distinct_recent_first-summary_example = distinct_recent_first-summary commands

autosuggest-IsRecorded_example :
    ((command : Text)
      → autosuggest (codes "git s") commands none ≡ some command
      → IsRecorded command commands.entries × (starts_with command (codes "git s") ≡ true))
    × ((e : HistoryEntry)
        → In e commands.entries
        → starts_with e.command (codes "git s") ≡ true
        → autosuggest (codes "git s") commands none ≢ none)
autosuggest-IsRecorded_example = autosuggest-IsRecorded (codes "git s") commands none
