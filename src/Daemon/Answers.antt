-- ===== src/Daemon/Answers.antt =====
-- crates/daemon/src/lib.rs: what kind of response a request, or a line, gets.
use autosuggest_core.Base.{
  ◌∙◌, ◌≡◌, refl, ◌<◌, ◌≤◌, true, false, Option, none, some, ◌⊎◌, inl, inr, Option-cases,
  Bool-cases, ltb, arith,
}
use autosuggest_core.Base.Int.{ℤ}
use autosuggest_core.Text.{Text, len, starts_with}
use autosuggest_core.History.Sound.{autosuggest-IsRecorded}
use autosuggest_core.Rank.{Float}
use autosuggest_core.Complete.Files.{FileSystem}
use autosuggest_core.Correct.{correct}
use autosuggest_core.Correct.Types.{RegexEngine, Result-cases}
use autosuggest_core.Protocol.{
  Request, AutosuggestRequest, Response, items_response, suggestion_response, error_response,
}
use autosuggest_core.Daemon.Salvage.{Salvages}
use autosuggest_core.Daemon.Salvaged.{scan_id-Salvages}
use autosuggest_core.Daemon.{
  Engine, Json, handle, handle_complete, handle_autosuggest, handle_correct, respond, spec_for,
  base_of, best_effort_id, code_internal, code_bad_request, max_request_bytes, context_of,
  autosuggest_from_store,
}

module _ (float : Float) where
  -- A response of the kind that belongs to the request, with its id, in version 1 of the protocol. Only
  -- a correction can fail.
  abbrev pub IsAnswer : Request → Response float → Type 0
  IsAnswer (Request.complete req) (Response.items r) = ((r.v) ≡ 1) × ((r.id) ≡ req.id)
  IsAnswer (Request.autosuggest req) (Response.suggestion r) = ((r.v) ≡ 1) × ((r.id) ≡ req.id)
  IsAnswer (Request.correct req) (Response.items r) = ((r.v) ≡ 1) × ((r.id) ≡ req.id)
  IsAnswer (Request.correct req) (Response.error r) =
      ((r.v) ≡ 1) × (((r.id) ≡ req.id) × ((r.error.code) ≡ code_internal))
  IsAnswer _ _ = true ≡ false

  -- The error for what is no request.
  abbrev pub IsRejection : ℤ → Response float → Type 0
  IsRejection id (Response.error r) =
      ((r.v) ≡ 1) × (((r.id) ≡ id) × ((r.error.code) ≡ code_bad_request))
  IsRejection id _ = true ≡ false

  -- The suggestion of an answer, if it is one.
  abbrev pub suggested : Response float → Option Text
  suggested (Response.suggestion r) = r.suggestion
  suggested _ = none

  module _ (files : FileSystem) (regex : RegexEngine) (engine : Engine) where
    -- A suggestion extends the prefix that is asked for, be the window the request's own or one that
    -- the history store answers, whatever it holds.
    handle_autosuggest-Extends :
        (req : AutosuggestRequest) (text : Text)
        → suggested (handle_autosuggest files float regex engine req) ≡ some text
        → starts_with text req.prefix ≡ true
    unfolding handle_autosuggest suggestion_response autosuggest_from_store
    handle_autosuggest-Extends req text h = elim (Option-cases req.history) [
      | inr (window, e) ↦ ((autosuggest-IsRecorded req.prefix window req.cwd).0 text (rw e at h)).1
      | inl e ↦ elim (Option-cases engine.recent) [
        | inl n ↦ absurd (let h' = rw (e, n) at h in cc)
        | inr (recent, n) ↦ elim (Option-cases (recent req.prefix 50 req.cwd)) [
          | inl k ↦ absurd (let h' = rw (e, n, k) at h in cc)
          | inr (window, k) ↦
              ((autosuggest-IsRecorded req.prefix window req.cwd).0 text (rw (e, n, k) at h)).1
        ]
      ]
    ]

    -- Every request gets a response of its own kind with its id: completions get items, suggestions a
    -- suggestion, and corrections items or an internal error.
    pub handle-IsAnswer :
        (request : Request) → IsAnswer request (handle files float regex engine request)
    unfolding handle handle_complete handle_autosuggest handle_correct items_response
        suggestion_response error_response
    handle-IsAnswer (Request.complete req) =
        elim (Option-cases (spec_for engine (base_of req.line))) [
          | inl e ↦ rw (handle_complete, e) (refl, refl)
          | inr (spec, e) ↦ rw (handle_complete, e) (refl, refl)
        ]
    handle-IsAnswer (Request.autosuggest req) = (refl, refl)
    handle-IsAnswer (Request.correct req) =
        elim (Result-cases
          (correct regex (context_of files float regex engine req) engine.rules engine.resolver)) [
            | inl (found, e) ↦ rw (handle_correct, e) (refl, refl)
            | inr (m, e) ↦ rw (handle_correct, e) (refl, (refl, refl))
          ]

    module _ (json : Json float) where
      -- Too long, or no request.
      abbrev pub IsRefused : Text → Type 0
      IsRefused line = (max_request_bytes < len line) ⊎ ((m : Text) × (json.request line ≡ inr m))

      -- The id of a refused line: that of the object that it is, or the one that it can be read to have.
      abbrev pub HasId : Text → ℤ → Type 0
      HasId line id = (json.id line ≡ some id) ⊎ ((json.id line ≡ none) × Salvages line id)

      best_effort_id-HasId : (line : Text) → HasId line (best_effort_id files float regex json line)
      unfolding best_effort_id
      best_effort_id-HasId line = elim (Option-cases (json.id line)) [
        | inl e ↦ inr (e, rw (best_effort_id, e) (scan_id-Salvages line))
        | inr (id, e) ↦ inl (e ∙ rw (best_effort_id, e) refl)
      ]

      abbrev pub IsReply : Text → Response float → Type 0
      IsReply line response =
          (IsRefused line × ((id : ℤ) × (HasId line id × IsRejection id response)))
          ⊎ ((len line ≤ max_request_bytes)
              × ((request : Request) × ((json.request line ≡ inl request)
                    × IsAnswer request response)))

      read_line-IsReply :
          (line : Text) (r : Request ⊎ Text)
          → ltb max_request_bytes (len line) ≡ false
          → json.request line ≡ r
          → IsReply line (respond files float regex json engine line)
      unfolding respond error_response
      read_line-IsReply line (inl request) n e =
          inr (ground (arith, n), (request, (e, rw (respond, n, e) (handle-IsAnswer request))))
      read_line-IsReply line (inr m) n e =
          inl
            (inr (m, e), (_, (best_effort_id-HasId line, rw (respond, n, e) (refl, (refl, refl)))))

      -- A line that is longer than the limit, or is no request, is rejected, and every other line is
      -- answered as the request that it is, with its id. The rejection has the id of the object that
      -- the line is, if it has one, and otherwise the number that stands behind the first colon behind
      -- the first key "id" on the line, white space between, or -1 if no `i64` stands there.
      pub respond-IsReply :
          (line : Text) → IsReply line (respond files float regex json engine line)
      unfolding respond error_response
      respond-IsReply line = elim (Bool-cases (ltb max_request_bytes (len line))) [
        | inl e ↦ inl (
          inl (ground (arith, e)),
          (_, (best_effort_id-HasId line, rw (respond, e) (refl, (refl, refl)))),
        )
        | inr e ↦ read_line-IsReply line _ e refl
      ]
