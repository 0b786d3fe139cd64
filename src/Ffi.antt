-- ===== src/Ffi.antt =====
-- crates/ffi/src/lib.rs: the C interface. A pointer of the caller that is not null is the bytes that
-- stand from it on, of which the first zero ends the string; the engine is its `handle_line`. What
-- `Engine::load` comes to and the allocator are parameters.
pub mod Strings
pub mod Process
pub mod Load
pub mod Lines
pub mod Agreement
use autosuggest_core.Base.{
  ◌≡◌, refl, sym, ap, ◌∙◌, ℕ, zero, suc, ◌+◌, ◌≤◌, ◌<◌, ◌==◌, Bool, true, false, List, [], ◌∷◌,
  ◌++◌, Option, none, some, any, ltb, if◌then◌else◌, unwrap_or, length, arith, Bool-cases, inl, inr,
}
use autosuggest_core.Text.{Text, codes}
use autosuggest_core.Text.Utf8.{from_utf8}
use autosuggest_core.Daemon.{max_request_bytes}

abbrev pub fallback_error : Text
fallback_error =
    codes "{\"v\":1,\"id\":-1,\"error\":{\"code\":\"internal\",\"message\":\"engine unavailable\"}}"

unfoldable pub error_text : Text → Text
error_text message =
    codes "{\"v\":1,\"id\":-1,\"error\":{\"code\":\"bad_request\",\"message\":\""
    ++ (message ++ codes "\"}}")

unfoldable pub bounded_cstr_len : List ℕ → ℕ → ℕ
bounded_cstr_len memory zero = 0
bounded_cstr_len [] (suc limit) = 0
bounded_cstr_len (b ∷ bs) (suc limit) = if b == 0 then 0 else suc (bounded_cstr_len bs limit)

-- `CStr::from_ptr`: the bytes before the zero.
unfoldable pub cstr_bytes : List ℕ → List ℕ
cstr_bytes [] = []
cstr_bytes (b ∷ bs) = if b == 0 then [] else b ∷ cstr_bytes bs

-- The string of `into_c_string`.
unfoldable pub into_c_string : Text → Text
into_c_string s = if any (λ c. c == 0) s then fallback_error else s

-- What a body under `catch_unwind` comes to.
pub data Outcome (A : Type 0) : Type 0 where
  returned : A → Outcome A
  panicked : Outcome A

abbrev pub Handler : Type 0
Handler = Text → Outcome Text

-- `ENGINE`: what the first load that returned came to, an engine unless it failed.
abbrev pub OnceLock : Type 0
OnceLock = Option (Option Handler)

unfoldable pub handle_with : Text → Outcome (Option Handler) → Outcome Text
handle_with request (returned (some handle_line)) = handle_line request
handle_with request (returned none) = returned fallback_error
handle_with request panicked = panicked

unfoldable pub caught : Outcome Text → Text
unfolding into_c_string
caught (returned response) = into_c_string response
caught panicked = into_c_string fallback_error

-- `loading` is what `Engine::load` would come to at this call.
module _ (loading : Outcome (Option Handler)) where
  unfoldable pub engine : OnceLock → Outcome (Option Handler) × OnceLock
  engine (some loaded) = (returned loaded, some loaded)
  engine none = elim loading [
    | returned loaded ↦ (returned loaded, some loaded)
    | panicked ↦ (panicked, none)
  ]

  unfoldable pub respond_line : Text → OnceLock → Outcome Text × OnceLock
  unfolding engine handle_with
  respond_line request cell =
      let (loaded, cell') = engine cell in (handle_with request loaded, cell')

  -- The response of the body of `autosuggest_request_json` on each of its paths, for a limit in
  -- place of `MAX_REQUEST_BYTES`.
  unfoldable pub response_within : ℕ → Option (List ℕ) → OnceLock → Outcome Text × OnceLock
  unfolding error_text bounded_cstr_len cstr_bytes respond_line from_utf8
  response_within limit none cell = (returned (error_text (codes "null request pointer")), cell)
  response_within limit (some memory) cell =
      if ltb limit (bounded_cstr_len memory (limit + 1))
      then (returned (error_text (codes "request exceeds byte limit")), cell)
      else (elim (from_utf8 (cstr_bytes memory)) [
        | some line ↦ respond_line line cell
        | none ↦ (returned (error_text (codes "request was not valid UTF-8")), cell)
      ])

  -- The string that is handed back.
  unfoldable pub request_json_within : ℕ → Option (List ℕ) → OnceLock → Text × OnceLock
  unfolding response_within caught
  request_json_within limit request cell =
      let (response, cell') = response_within limit request cell in (caught response, cell')
