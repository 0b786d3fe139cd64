-- ===== src/Protocol.antt =====
-- crates/protocol/src/request.rs and response.rs: the messages of the wire, behind their JSON.
-- An `i64` is an integer and a `usize` or `u32` a natural number: the program only passes them on.
use autosuggest_core.Base.{ℕ, Bool, List, Option, unwrap_or}
use autosuggest_core.Base.Int.{ℤ}
use autosuggest_core.Text.{Text, len}
use autosuggest_core.History.{HistoryWindow}
use autosuggest_core.Rank.{Float}

pub record CompleteRequest : Type 0 where
  pub v : ℕ
  pub id : ℤ
  pub line : Text
  pub cursor : Option ℕ
  pub cwd : Option Text
  pub env : Option (List (Text × Text))

pub record AutosuggestRequest : Type 0 where
  pub v : ℕ
  pub id : ℤ
  pub prefix : Text
  pub cwd : Option Text
  pub history : Option HistoryWindow

pub record CorrectRequest : Type 0 where
  pub v : ℕ
  pub id : ℤ
  pub script : Text
  pub stderr : Option Text
  pub exit_code : Option ℤ
  pub cwd : Option Text

pub data Request : Type 0 where
  complete : CompleteRequest → Request
  autosuggest : AutosuggestRequest → Request
  correct : CorrectRequest → Request

unfoldable pub cursor_or_end : CompleteRequest → ℕ
unfolding len
cursor_or_end req = unwrap_or req.cursor (len req.line)

pub record ErrorBody : Type 0 where
  pub code : Text
  pub message : Text

module _ (float : Float) where
  pub record Item : Type 0 where
    pub insert : Text
    pub display : Option Text
    pub desc : Option Text
    pub score : float.F
    pub dangerous : Option Bool
    pub deprecated : Option Bool

  pub record ItemsResponse : Type 0 where
    pub v : ℕ
    pub id : ℤ
    pub items : List Item

  pub record SuggestionResponse : Type 0 where
    pub v : ℕ
    pub id : ℤ
    pub suggestion : Option Text

  pub record ErrorResponse : Type 0 where
    pub v : ℕ
    pub id : ℤ
    pub error : ErrorBody

  pub data Response : Type 0 where
    items : ItemsResponse → Response
    error : ErrorResponse → Response
    suggestion : SuggestionResponse → Response

  -- `Response::items`, `Response::suggestion` and `Response::error`
  unfoldable pub items_response : ℤ → List Item → Response
  items_response id found = Response.items (record { v = 1; id = id; items = found })

  unfoldable pub suggestion_response : ℤ → Option Text → Response
  suggestion_response id text = Response.suggestion (record { v = 1; id = id; suggestion = text })

  unfoldable pub error_response : ℤ → Text → Text → Response
  error_response id code message =
      Response.error (record { v = 1; id = id; error = record { code = code; message = message } })
