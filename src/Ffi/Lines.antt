-- ===== src/Ffi/Lines.antt =====
-- crates/ffi/src/lib.rs: the answers to the lines that the daemon reads from its input.
use autosuggest_core.Base.{
  ◌≡◌, refl, ap, ◌∙◌, ◌⊎◌, inl, inr, ℕ, ◌≤◌, false, List, [], ◌∷◌, ◌++◌, map, Option, none, some,
  length, length-append, is_empty, ltb, All, arith,
}
use autosuggest_core.Text.{Text}
use autosuggest_core.Text.Utf8.{from_utf8}
use autosuggest_core.Output.{trim}
use autosuggest_core.Daemon.Served.{IsLine, wire, requests, request_of}
use autosuggest_core.Ffi.{
  Outcome, returned, Handler, OnceLock, caught, engine, handle_with, respond_line,
  request_json_within,
}
use autosuggest_core.Ffi.Strings.{IsZeroFree, request_json_within-IsAnswer}
use autosuggest_core.Ffi.Process.Loaded.{Call, answers}

-- A line that is a C string and the same request to both: it is not blank, and ends in no carriage
-- return.
abbrev pub IsRequest : List ℕ × Text → Type 0
IsRequest (bytes, text) =
    IsZeroFree bytes × ((is_empty (trim text) ≡ false) × (request_of text ≡ text))

-- The call with the bytes of a line.
abbrev pub ask : Outcome (Option Handler) → List ℕ × Text → Call
ask loading line = (loading, some (line.0 ++ 0 ∷ []))

pub requests-lines :
    (lines : List (List ℕ × Text)) → All IsRequest lines → requests lines ≡ map (λ l. l.1) lines
requests-lines [] h = refl
requests-lines ((bytes, text) ∷ lines) (h, hs) = rw (h.1.1, h.1.0, requests-lines lines hs) refl

module _ (limit : ℕ) (loaded : Option Handler) where
  -- A cell that is not set, or set to what the load comes to.
  abbrev pub IsOpen : OnceLock → Type 0
  IsOpen cell = (cell ≡ none) ⊎ (cell ≡ some loaded)

  respond_line-loaded :
      (cell : OnceLock) (text : Text)
      → IsOpen cell
      → respond_line (returned loaded) text cell ≡ (handle_with text (returned loaded), some loaded)
  unfolding respond_line engine
  respond_line-loaded cell text (inl e) = rw e refl
  respond_line-loaded cell text (inr e) = rw e refl

  request_json-line :
      (cell : OnceLock) (bytes : List ℕ) (text : Text)
      → IsOpen cell
      → IsZeroFree bytes
      → length bytes ≤ limit
      → from_utf8 bytes ≡ some text
      → request_json_within (returned loaded) limit (some (bytes ++ 0 ∷ [])) cell
        ≡ (caught (handle_with text (returned loaded)), some loaded)
  request_json-line cell bytes text o z l u =
      let k : ltb limit (length bytes) ≡ false = ground arith in
      (request_json_within-IsAnswer (returned loaded) limit cell bytes [] none z).0
      ∙ rw (k, u, respond_line-loaded cell text o) refl

  pub answers-lines :
      (lines : List (List ℕ × Text)) (cell : OnceLock)
      → IsOpen cell
      → All (IsLine limit) lines
      → All IsRequest lines
      → (answers limit (map (ask (returned loaded)) lines) cell).0
        ≡ map (λ l. caught (handle_with l.1 (returned loaded))) lines
  unfolding answers
  answers-lines [] cell o h r = refl
  answers-lines ((bytes, text) ∷ lines) cell o (h, hs) (r, rs) =
      rw (request_json-line cell bytes text o r.0 h.1.0 h.1.1) (
        ap (λ z. caught (handle_with text (returned loaded)) ∷ z)
          (answers-lines lines (some loaded) (inr refl) hs rs))

pub length-wire : (lines : List (List ℕ × Text)) → length lines ≤ length (wire lines)
length-wire [] = omega arith
length-wire ((bytes, text) ∷ lines) =
    omega (arith, length-append bytes (b'\n' ∷ wire lines), length-wire lines)
