-- ===== src/Daemon.antt =====
-- crates/daemon/src/lib.rs: the engine that answers requests.
-- The file system, the arithmetic of scores, the regex engine, JSON and the history store are
-- parameters; a `Mutex` that cannot be locked is a store that does not answer.
pub mod Scan
pub mod Salvage
pub mod Salvaged
pub mod Indexed
pub mod Answers
pub mod Stdin
pub mod Load
pub mod DataFiles
pub mod Loaded
pub mod Listed
pub mod Main
pub mod Fuel
pub mod Lines
pub mod Served
use autosuggest_core.Base.{
  ℕ, ◌+◌, zero, suc, Bool, true, false, List, [], ◌∷◌, ◌++◌, Option, none, some, ◌⊎◌, inl, inr, map,
  ltb, if◌then◌else◌, unwrap_or, get_elem?, ◌>>=◌,
}
use autosuggest_core.Base.Int.{ℤ, neg}
use autosuggest_core.Text.{Text, codes, text_eq, len, split_whitespace}
use autosuggest_core.Spec.{Subcommand, command, all_names}
use autosuggest_core.History.{HistoryWindow}
use autosuggest_core.History
use autosuggest_core.Rank.{Float, CompletionItem}
use autosuggest_core.Complete.{GeneratorRunner, complete_line}
use autosuggest_core.Complete.Files.{FileSystem}
use autosuggest_core.Correct.{correct}
use autosuggest_core.Correct.Types.{
  Rule, CommandResolver, CorrectContext, CorrectedCommand, RegexEngine, Result, ok, err, context,
  error_message,
}
use autosuggest_core.Protocol.{
  Request, CompleteRequest, AutosuggestRequest, CorrectRequest, Item, Response, cursor_or_end,
  items_response, suggestion_response, error_response,
}
use autosuggest_core.Daemon.Scan.{scan_id}

abbrev pub code_bad_request : Text
code_bad_request = codes "bad_request"

abbrev pub code_internal : Text
code_internal = codes "internal"

abbrev pub unknown_id : ℤ
unknown_id = ℤ.negsuc 0

abbrev pub max_request_bytes : ℕ
max_request_bytes = 1048576

-- `BTreeMap::get`, and `entry(name).or_insert(i)`
unfoldable pub index_of : List (Text × ℕ) → Text → Option ℕ
unfolding text_eq
index_of [] name = none
index_of ((n, i) ∷ index) name = if text_eq n name then some i else index_of index name

unfoldable pub or_insert : List (Text × ℕ) → Text → ℕ → List (Text × ℕ)
unfolding text_eq
or_insert [] name i = (name, i) ∷ []
or_insert ((n, j) ∷ index) name i =
    let rest = or_insert index name i in if text_eq n name then (n, j) ∷ index else (n, j) ∷ rest

-- The inner and the outer loop of `index_specs`.
unfoldable pub index_names : List (Text × ℕ) → List Text → ℕ → List (Text × ℕ)
unfolding or_insert
index_names index [] i = index
index_names index (name ∷ names) i = index_names (or_insert index name i) names i

unfoldable pub index_from : List (Text × ℕ) → ℕ → List Subcommand → List (Text × ℕ)
unfolding index_names all_names
index_from index i [] = index
index_from index i (spec ∷ specs) =
    index_from (index_names index (all_names (command spec).name) i) (suc i) specs

unfoldable pub index_specs : List Subcommand → List (Text × ℕ)
unfolding index_from
index_specs specs = index_from [] 0 specs

pub record Engine : Type 0 where
  pub specs_by_name : List (Text × ℕ)
  pub specs : List Subcommand
  pub rules : List Rule
  pub resolver : CommandResolver
  pub runner : GeneratorRunner
  -- `HistoryStore::recent` of the store, if there is one and it answers.
  pub recent : Option (Text → ℕ → Option Text → Option HistoryWindow)

-- `Engine::with_runner`
unfoldable pub with_runner :
    List Subcommand → List Rule → CommandResolver → GeneratorRunner → Engine
unfolding index_specs
with_runner specs rules resolver runner = record {
  specs_by_name = index_specs specs;
  specs = specs;
  rules = rules;
  resolver = resolver;
  runner = runner;
  recent = none;
}

unfoldable pub with_history_store :
    Engine → (Text → ℕ → Option Text → Option HistoryWindow) → Engine
with_history_store engine recent = record engine { recent = some recent }

unfoldable pub spec_for : Engine → Text → Option Subcommand
unfolding index_of
spec_for engine name = do i ← index_of engine.specs_by_name name; get_elem? engine.specs i

-- The first word of a line, or nothing.
unfoldable pub base_of : Text → Text
unfolding split_whitespace
base_of line = elim (split_whitespace line) [ [] ↦ [] | word ∷ words ↦ word ]

unfoldable pub autosuggest_from_store : Engine → Text → Option Text → Option Text
unfolding History.autosuggest
autosuggest_from_store engine prefix cwd = do
  recent ← engine.recent
  window ← recent prefix 50 cwd
  History.autosuggest prefix window cwd

module _ (files : FileSystem) (float : Float) (regex : RegexEngine) where
  unfoldable pub item_to_wire : CompletionItem float → Item float
  item_to_wire item = record {
    insert = item.insert;
    display = some (item.display);
    desc = item.desc;
    score = item.score;
    dangerous = if item.dangerous then some true else none;
    deprecated = if item.deprecated then some true else none;
  }

  unfoldable pub handle_complete : Engine → CompleteRequest → Response float
  unfolding cursor_or_end base_of spec_for complete_line item_to_wire items_response
  handle_complete engine req = elim (spec_for engine (base_of req.line)) [
    | none ↦ items_response float req.id []
    | some spec ↦ items_response float req.id (
        map item_to_wire (
          complete_line files (some engine.runner) float spec req.line (cursor_or_end req)
            (files.of_text (unwrap_or req.cwd (codes ".")))))
  ]

  unfoldable pub handle_autosuggest : Engine → AutosuggestRequest → Response float
  unfolding History.autosuggest autosuggest_from_store suggestion_response
  handle_autosuggest engine req = suggestion_response float req.id (elim req.history [
    | some window ↦ History.autosuggest req.prefix window req.cwd
    | none ↦ autosuggest_from_store engine req.prefix req.cwd
  ])

  unfoldable pub correction_item : CorrectedCommand → Item float
  correction_item c = record {
    insert = c.command;
    display = none;
    desc = c.description;
    score = float.div (float.of_u8 c.priority) (float.literal 1000 1);
    dangerous = none;
    deprecated = none;
  }

  unfoldable pub context_of : Engine → CorrectRequest → CorrectContext
  unfolding context
  context_of engine req = record (context req.script (unwrap_or req.stderr []) req.exit_code) {
    cwd = req.cwd;
    specs = engine.specs;
  }

  unfoldable pub handle_correct : Engine → CorrectRequest → Response float
  unfolding correct context_of correction_item error_message items_response error_response
  handle_correct engine req =
      elim (correct regex (context_of engine req) engine.rules engine.resolver) [
        | ok corrections ↦ items_response float req.id (map correction_item corrections)
        | err e ↦ error_response float req.id code_internal (error_message e)
      ]

  unfoldable pub handle : Engine → Request → Response float
  unfolding handle_complete handle_autosuggest handle_correct
  handle engine (Request.complete req) = handle_complete engine req
  handle engine (Request.autosuggest req) = handle_autosuggest engine req
  handle engine (Request.correct req) = handle_correct engine req

-- `serde_json`: a request or why there is none, the `id` of an object that has one, and the text of a
-- response.
pub record Json (float : Float) : Type 0 where
  pub request : Text → Request ⊎ Text
  pub id : Text → Option ℤ
  pub to_string : Response float → Option Text

module _ (files : FileSystem) (float : Float) (regex : RegexEngine) (json : Json float) where
  unfoldable pub best_effort_id : Text → ℤ
  unfolding scan_id
  best_effort_id line = elim (json.id line) [
    | some id ↦ id
    | none ↦ unwrap_or (scan_id line) unknown_id
  ]

  -- What `handle_line` answers, before it is written as JSON.
  unfoldable pub respond : Engine → Text → Response float
  unfolding len best_effort_id handle error_response
  respond engine line =
      if ltb max_request_bytes (len line)
      then error_response float (best_effort_id line) code_bad_request
          (codes "request exceeds 1048576 byte limit")
      else (elim (json.request line) [
        | inl request ↦ handle files float regex engine request
        | inr e ↦
            error_response float (best_effort_id line) code_bad_request
              (codes "invalid request: " ++ e)
      ])

  -- The texts that stand in where a response cannot be written.
  abbrev pub too_large_text : Text
  too_large_text =
      codes
        "{\"v\":1,\"id\":-1,\"error\":{\"code\":\"bad_request\",\"message\":\"request too large\"}}"

  abbrev pub internal_text : Text
  internal_text =
      codes
        "{\"v\":1,\"id\":-1,\"error\":{\"code\":\"internal\",\"message\":\"failed to serialize response\"}}"

  unfoldable pub handle_line : Engine → Text → Text
  unfolding respond len
  handle_line engine line =
      unwrap_or (json.to_string (respond engine line))
        (if ltb max_request_bytes (len line) then too_large_text else internal_text)
