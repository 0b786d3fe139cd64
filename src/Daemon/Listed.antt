-- ===== src/Daemon/Listed.antt =====
-- crates/daemon/src/lib.rs: the items that a request for completions gets.
use autosuggest_core.Base.{
  ◌≡◌, ℕ, ◌≤◌, true, List, [], Option, none, some, ◌⊎◌, map, unwrap_or, length, All, In,
}
use autosuggest_core.Base.Sort.{IsSortedBy, not_gt}
use autosuggest_core.Text.{Text, codes}
use autosuggest_core.Spec.{Subcommand}
use autosuggest_core.Tokenize.{tokenize, query, committed}
use autosuggest_core.Parse.{ParseState, parse}
use autosuggest_core.Rank.{Float, Candidate, CompletionItem, MatchQuality, by_score, default_top_n}
use autosuggest_core.Rank.Order.{IsItem}
use autosuggest_core.Complete.{GeneratorRunner, collect}
use autosuggest_core.Complete.Files.{FileSystem}
use autosuggest_core.Correct.Types.{RegexEngine}
use autosuggest_core.Protocol.{CompleteRequest, Response, cursor_or_end, items_response}
use autosuggest_core.Daemon.{item_to_wire}

module _ (files : FileSystem) (float : Float) (regex : RegexEngine) (runner : GeneratorRunner) where
  -- The state of the parse at the cursor, and what the candidates have to match.
  abbrev pub state_at : Subcommand → Text → ℕ → ParseState
  state_at spec line cursor =
      parse spec (committed (tokenize line cursor)) (query (tokenize line cursor))

  abbrev pub query_at : Subcommand → Text → ℕ → Text
  query_at spec line cursor =
      unwrap_or (state_at spec line cursor).inline_value_prefix (query (tokenize line cursor))

  abbrev pub candidates_at : Subcommand → Text → ℕ → Text → List Candidate
  candidates_at spec line cursor cwd =
      collect files (some runner) (state_at spec line cursor) (query_at spec line cursor)
        (files.of_text cwd)

  -- The ranked items of the candidates of a spec, on the wire.
  abbrev pub IsRanking : Subcommand → CompleteRequest → Response float → Type 0
  IsRanking spec req response =
      let candidates =
        candidates_at spec req.line (cursor_or_end req) (unwrap_or req.cwd (codes ".")) in
      let wanted = query_at spec req.line (cursor_or_end req) in
      (l : List (CompletionItem float × MatchQuality)) × ((response
          ≡ items_response float req.id (map (λ p. item_to_wire files float regex p.0) l))
        × (IsSortedBy (by_score float) l
            × ((length l ≤ default_top_n)
                × (((p : CompletionItem float × MatchQuality)
                      → In p l
                      → IsItem float wanted candidates p)
                    × ((p : CompletionItem float × MatchQuality)
                        → IsItem float wanted candidates p
                        → In p l
                          ⊎ ((length l ≡ default_top_n)
                              × All (λ q. not_gt (by_score float q p) ≡ true) l))))))

  abbrev pub IsListing : Option Subcommand → CompleteRequest → Response float → Type 0
  IsListing none req response = response ≡ items_response float req.id []
  IsListing (some spec) req response = IsRanking spec req response
