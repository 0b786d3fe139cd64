-- ===== src/Ffi/Strings.antt =====
-- crates/ffi/src/lib.rs: the answer to a C string, and that it is one.
use autosuggest_core.Ffi.{
  returned, OnceLock, Handler, caught, Outcome, panicked, fallback_error, error_text,
  bounded_cstr_len, cstr_bytes, into_c_string, respond_line, response_within, request_json_within,
}
use autosuggest_core.Base.{
  ◌≡◌, refl, ap, ℕ, zero, suc, ◌+◌, ◌==◌, min, false, List, [], ◌∷◌, ◌++◌, Option, none, some, any,
  ltb, if◌then◌else◌, length, arith, Bool-cases, inl, inr,
}
use autosuggest_core.Text.{Text, codes}
use autosuggest_core.Text.Utf8.{from_utf8}

-- No zero stands in it.
abbrev pub IsZeroFree : List ℕ → Type 0
IsZeroFree cs = any (λ c. c == 0) cs ≡ false

bounded_cstr_len-min :
    (bytes rest : List ℕ) (limit : ℕ)
    → IsZeroFree bytes
    → bounded_cstr_len (bytes ++ 0 ∷ rest) limit ≡ min (length bytes) limit
unfolding bounded_cstr_len
bounded_cstr_len-min bytes rest zero h = omega arith
bounded_cstr_len-min [] rest (suc limit) h = omega arith
bounded_cstr_len-min (b ∷ bs) rest (suc limit) h = elim (Bool-cases (b == 0)) [
  | inl e ↦ absurd (let h' = rw e at h in cc)
  | inr e ↦ rw (bounded_cstr_len, e) (omega (arith, bounded_cstr_len-min bs rest limit (rw e at h)))
]

cstr_bytes-append :
    (bytes rest : List ℕ) → IsZeroFree bytes → cstr_bytes (bytes ++ 0 ∷ rest) ≡ bytes
unfolding cstr_bytes
cstr_bytes-append [] rest h = refl
cstr_bytes-append (b ∷ bs) rest h = elim (Bool-cases (b == 0)) [
  | inl e ↦ absurd (let h' = rw e at h in cc)
  | inr e ↦ rw (cstr_bytes, e) (ap (λ z. b ∷ z) (cstr_bytes-append bs rest (rw e at h)))
]

pub into_c_string-IsZeroFree : (s : Text) → IsZeroFree (into_c_string s)
unfolding into_c_string
into_c_string-IsZeroFree s = elim (Bool-cases (any (λ c. c == 0) s)) [
  | inl e ↦ rw (into_c_string, e) refl
  | inr e ↦ rw (into_c_string, e) e
]

caught-IsZeroFree : (response : Outcome Text) → IsZeroFree (caught response)
unfolding caught
caught-IsZeroFree (returned s) = into_c_string-IsZeroFree s
caught-IsZeroFree panicked = into_c_string-IsZeroFree fallback_error

module _ (loading : Outcome (Option Handler)) (limit : ℕ) (cell : OnceLock) where
  -- What the bytes of a string are answered.
  abbrev pub answer_to : List ℕ → Outcome Text × OnceLock
  answer_to bytes =
      if ltb limit (length bytes)
      then (returned (error_text (codes "request exceeds byte limit")), cell)
      else (elim (from_utf8 bytes) [
        | some line ↦ respond_line loading line cell
        | none ↦ (returned (error_text (codes "request was not valid UTF-8")), cell)
      ])

  too_long-min :
      (bytes rest : List ℕ)
      → IsZeroFree bytes
      → ltb limit (bounded_cstr_len (bytes ++ 0 ∷ rest) (limit + 1)) ≡ ltb limit (length bytes)
  too_long-min bytes rest h =
      let k = bounded_cstr_len-min bytes rest (limit + 1) h in rw k (ground arith)

  response_within-answer :
      (bytes rest : List ℕ)
      → IsZeroFree bytes
      → response_within loading limit (some (bytes ++ 0 ∷ rest)) cell ≡ answer_to bytes
  unfolding response_within
  response_within-answer bytes rest h = elim (Bool-cases (ltb limit (length bytes))) [
    | inl e ↦ rw (response_within, too_long-min bytes rest h, e) refl
    | inr e ↦
        rw (response_within, too_long-min bytes rest h, e, cstr_bytes-append bytes rest h) refl
  ]

  -- The string that is handed back for any pointer, also for null, is a C string: no zero stands in
  -- it.
  pub request_json_within-IsZeroFree :
      (request : Option (List ℕ)) → IsZeroFree (request_json_within loading limit request cell).0
  unfolding request_json_within
  request_json_within-IsZeroFree request =
      caught-IsZeroFree (response_within loading limit request cell).0

  -- A pointer to a string of bytes gets what the engine answers to the line that they are, or an
  -- error where they are too many or no text, whatever stands behind the string, with the fallback
  -- answer where the engine panics; and the answer to any pointer, also to null, is a C string: no
  -- zero stands in it.
  pub request_json_within-IsAnswer :
      (bytes rest : List ℕ) (request : Option (List ℕ))
      → IsZeroFree bytes
      → (request_json_within loading limit (some (bytes ++ 0 ∷ rest)) cell
          ≡ (caught (answer_to bytes).0, (answer_to bytes).1))
        × IsZeroFree (request_json_within loading limit request cell).0
  unfolding request_json_within
  request_json_within-IsAnswer bytes rest request h = (
    ap (λ r. (caught r.0, r.1)) (response_within-answer bytes rest h),
    request_json_within-IsZeroFree request,
  )
