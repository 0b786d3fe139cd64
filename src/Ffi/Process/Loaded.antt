-- ===== src/Ffi/Process/Loaded.antt =====
-- crates/ffi/src/lib.rs: the engine is loaded once, and serves every later request.
use autosuggest_core.Base.{
  true, ◌⊎◌, All, is_some, not, ◌&&◌, Bool, false, ◌≡◌, refl, sym, ap, ◌∙◌, ℕ, List, [], ◌∷◌, ◌++◌,
  map, Option, none, some, Bool-cases, Option-cases, inl, inr, In, here, there, ltb, ◌+◌,
}
use autosuggest_core.Text.{Text}
use autosuggest_core.Text.Utf8.{from_utf8}
use autosuggest_core.Ffi.{
  Outcome, returned, panicked, Handler, OnceLock, engine, respond_line, bounded_cstr_len,
  cstr_bytes, response_within, request_json_within,
}

-- A request, with what a load would come to when it is made.
abbrev pub Call : Type 0
Call = Outcome (Option Handler) × Option (List ℕ)

module _ (limit : ℕ) where
  -- The answers to one request after another, and what the cell holds after them.
  unfoldable pub answers : List Call → OnceLock → List Text × OnceLock
  answers [] cell = ([], cell)
  answers ((loading, request) ∷ calls) cell =
      let (s, cell') = request_json_within loading limit request cell in
      let (rest, last) = answers calls cell' in (s ∷ rest, last)

  -- What a new process answers to a request, if its load comes to `loaded`.
  unfoldable pub answer_of : Option Handler → Option (List ℕ) → Text
  answer_of loaded request = (request_json_within (returned loaded) limit request none).0

  -- A cell that is set serves a request as a new process would, whatever a load would come to.
  request_set :
      (loading : Outcome (Option Handler)) (loaded : Option Handler) (request : Option (List ℕ))
      → request_json_within loading limit request (some loaded)
        ≡ (answer_of loaded request, some loaded)
  unfolding request_json_within answer_of response_within respond_line engine
  request_set loading loaded none = refl
  request_set loading loaded (some memory) =
      elim (Bool-cases (ltb limit (bounded_cstr_len memory (limit + 1)))) [
        | inl e ↦ rw e refl
        | inr e ↦ elim (Option-cases (from_utf8 (cstr_bytes memory))) [
          | inl k ↦ rw (e, k) refl
          | inr (line, k) ↦ rw (e, k) refl
        ]
      ]

  -- A request leaves the cell, or sets it to what the load came to.
  request_cell :
      (loading : Outcome (Option Handler)) (request : Option (List ℕ)) (loaded : Option Handler)
      → (request_json_within loading limit request none).1 ≡ some loaded
      → loading ≡ returned loaded
  unfolding request_json_within response_within respond_line engine
  request_cell loading none loaded h = absurd (cc)
  request_cell (returned other) (some memory) loaded h =
      elim (Bool-cases (ltb limit (bounded_cstr_len memory (limit + 1)))) [
        | inl e ↦ absurd (let k = rw e at h in cc)
        | inr e ↦ elim (Option-cases (from_utf8 (cstr_bytes memory))) [
          | inl k ↦ absurd (let l = rw (e, k) at h in cc)
          | inr (line, k) ↦ (let l = rw (e, k) at h in cc)
        ]
      ]
  request_cell panicked (some memory) loaded h =
      elim (Bool-cases (ltb limit (bounded_cstr_len memory (limit + 1)))) [
        | inl e ↦ absurd (let k = rw e at h in cc)
        | inr e ↦ elim (Option-cases (from_utf8 (cstr_bytes memory))) [
          | inl k ↦ absurd (let l = rw (e, k) at h in cc)
          | inr (line, k) ↦ absurd (let l = rw (e, k) at h in cc)
        ]
      ]

  answers_set :
      (calls : List Call) (loaded : Option Handler)
      → answers calls (some loaded) ≡ (map (λ c. answer_of loaded c.1) calls, some loaded)
  unfolding answers
  answers_set [] loaded = refl
  answers_set ((loading, request) ∷ calls) loaded =
      rw (request_set loading loaded request, answers_set calls loaded) refl

  answers-append :
      (calls more : List Call) (cell : OnceLock)
      → answers (calls ++ more) cell ≡ (
        (answers calls cell).0 ++ (answers more (answers calls cell).1).0,
        (answers more (answers calls cell).1).1,
      )
  unfolding answers
  answers-append [] more cell = refl
  answers-append ((loading, request) ∷ calls) more cell =
      rw (answers-append calls more (request_json_within loading limit request cell).1) refl

  answers-loads :
      (calls : List Call) (loaded : Option Handler)
      → (answers calls none).1 ≡ some loaded
      → (request : Option (List ℕ)) × In (returned loaded, request) calls
  unfolding answers
  answers-loads [] loaded h = absurd (cc)
  answers-loads ((loading, request) ∷ calls) loaded h =
      elim (Option-cases (request_json_within loading limit request none).1) [
        | inl e ↦ (let (r, m) = answers-loads calls loaded (rw e at h) in (r, there m))
        | inr (first, e) ↦
            (let k : some first ≡ some loaded =
                sym (ap (λ a. a.1) (answers_set calls first)) ∙ rw e at h in
              (
                request,
                here (
                    rw (request_cell loading request first e)
                      (let l : first ≡ loaded = cc in rw l refl)),
              ))
      ]

  -- A request asks the engine: its bytes are within the limit and a text.
  abbrev pub asks_engine : Option (List ℕ) → Bool
  asks_engine none = false
  asks_engine (some memory) =
      not (ltb limit (bounded_cstr_len memory (limit + 1)))
      && is_some (from_utf8 (cstr_bytes memory))

  -- The load of such a request, if the cell is not set by it, panics.
  request_not_set :
      (loading : Outcome (Option Handler)) (request : Option (List ℕ))
      → (request_json_within loading limit request none).1 ≡ none
      → asks_engine request ≡ true
      → loading ≡ panicked
  unfolding request_json_within response_within respond_line engine
  request_not_set panicked request h a = refl
  request_not_set loading none h a = absurd (cc)
  request_not_set (returned loaded) (some memory) h a =
      elim (Bool-cases (ltb limit (bounded_cstr_len memory (limit + 1)))) [
        | inl e ↦ absurd (let g = rw e at a in cc)
        | inr e ↦ elim (Option-cases (from_utf8 (cstr_bytes memory))) [
          | inl k ↦ absurd (let g = rw (e, k) at a in cc)
          | inr (line, k) ↦ absurd (let g = rw (e, k) at h in cc)
        ]
      ]

  answers_not_set :
      (calls : List Call)
      → (answers calls none).1 ≡ none
      → All (λ c. asks_engine c.1 ≡ true → c.0 ≡ panicked) calls
  unfolding answers
  answers_not_set [] h = tt
  answers_not_set ((loading, request) ∷ calls) h =
      elim (Option-cases (request_json_within loading limit request none).1) [
        | inl e ↦ (request_not_set loading request e, answers_not_set calls (rw e at h))
        | inr (first, e) ↦ absurd (
            let k : some first ≡ none = sym (ap (λ a. a.1) (answers_set calls first)) ∙ rw e at h in
            cc)
      ]

  -- After any requests to a new process, either no engine is set, and at each of them that asked it
  -- the load panicked; or what a load came to at one of them is set, an engine or its failure. Then
  -- every later request is answered as a new process would answer it with that, whatever later loads
  -- would come to, and it stays.
  pub answers-IsLoadedOnce :
      (calls later : List Call)
      → (((answers calls none).1 ≡ none) × All (λ c. asks_engine c.1 ≡ true → c.0 ≡ panicked) calls)
        ⊎ ((loaded : Option Handler) × (((request : Option (List ℕ)) × In
                  (returned loaded, request)
                  calls)
              × (answers (calls ++ later) none ≡ (
                (answers calls none).0 ++ map (λ c. answer_of loaded c.1) later,
                some loaded,
              ))))
  answers-IsLoadedOnce calls later = elim (Option-cases (answers calls none).1) [
    | inl e ↦ inl (e, answers_not_set calls e)
    | inr (loaded, e) ↦ inr (
      loaded,
      (
        answers-loads calls loaded e,
        rw (answers-append calls later none, e, answers_set later loaded) refl,
      ),
    )
  ]
