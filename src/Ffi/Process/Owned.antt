-- ===== src/Ffi/Process/Owned.antt =====
-- crates/ffi/src/lib.rs: a caller that gives back what it was handed, and nothing twice.
use autosuggest_core.Ffi.Strings.{request_json_within-IsZeroFree, IsZeroFree}
use autosuggest_core.Base.{
  ◌↔◌, ◌⊎◌, ◌≡◌, ◌≢◌, ap, ℕ, ◌==◌, List, [], ◌∷◌, Option, none, some, Bool-cases, inl, inr, In,
}
use autosuggest_core.Ffi.{Outcome, Handler, request_json_within}
use autosuggest_core.Text.{Text}
use autosuggest_core.Daemon.{max_request_bytes}
use autosuggest_core.Ffi.Process.{Process, write, request_json, string_free}
use autosuggest_core.Ffi.Process.Live.{Held, give_back, IsOwned, allocated-IsOwned, freed-IsOwned}

-- The processes to which calls lead, with what the caller then holds: it makes any request, for
-- which the allocator chooses an address that is not null and not in use, and it frees null or what
-- it holds.
pub data Reachable : Held → Process → Type 0 where
  start : (process : Process) → process.heap ≡ (λ _. none) → Reachable [] process
  asked :
      (held : Held) (process : Process) (loading : Outcome (Option Handler)) (p : ℕ)
      (request : Option (List ℕ))
      → Reachable held process
      → p ≢ 0
      → process.heap p ≡ none
      → Reachable
          ((
            (request_json loading p request process).0,
            (request_json_within loading max_request_bytes request process.engine).0,
          )
            ∷ held)
          (request_json loading p request process).1
  freed :
      (held : Held) (process after : Process) (p : ℕ)
      → Reachable held process
      → (p ≡ 0) ⊎ ((s : Text) × In (p, s) held)
      → string_free p process ≡ some after
      → Reachable (give_back p held) after

asked-IsOwned :
    (held : Held) (process : Process) (loading : Outcome (Option Handler)) (p : ℕ)
    (request : Option (List ℕ))
    → p ≢ 0
    → process.heap p ≡ none
    → IsOwned held process
    → IsOwned
        ((
          (request_json loading p request process).0,
          (request_json_within loading max_request_bytes request process.engine).0,
        )
          ∷ held)
        (request_json loading p request process).1
unfolding request_json
asked-IsOwned held process loading p request h0 hp own =
    let (s, cell) = request_json_within loading max_request_bytes request process.engine in
    allocated-IsOwned own p cell s h0 hp
      (request_json_within-IsZeroFree loading max_request_bytes process.engine request)

Reachable-IsOwned :
    {held : Held} {process : Process} → Reachable held process → IsOwned held process
Reachable-IsOwned (start process e) = record {
  live = λ p s m. elim m [ ];
  kept = λ p s h. absurd (let k = ap (λ f. f p) e in cc);
  no_null = ap (λ f. f 0) e;
  c_strings = λ p s h. absurd (let k = ap (λ f. f p) e in cc);
}
Reachable-IsOwned (asked held process loading p request r h0 hp) =
    asked-IsOwned held process loading p request h0 hp (Reachable-IsOwned r)
Reachable-IsOwned (freed held process after p r own h) =
    freed-IsOwned held process after p h (Reachable-IsOwned r)

free_defined :
    (process : Process) (p : ℕ) (s : Text)
    → process.heap p ≡ some s
    → (after : Process) × (string_free p process ≡ some after)
unfolding string_free
free_defined process p s h = elim (Bool-cases (p == 0)) [
  | inl e ↦ (process, rw e)
  | inr e ↦ (record process { heap = write process.heap p none }, rw (e, h))
]

-- However a caller asks and frees, as long as it frees null and what it holds only: exactly the
-- strings that it was handed and has not freed are allocated, each at a pointer that is not null
-- and with the bytes that it was handed with, a C string, and to free a held pointer is defined.
pub Reachable-IsHeld :
    {held : Held} {process : Process} (p : ℕ) (s : Text)
    → Reachable held process
    → (In (p, s) held ↔ (process.heap p ≡ some s))
      × (In (p, s) held
          → (p ≢ 0) × IsZeroFree s × ((after : Process) × (string_free p process ≡ some after)))
Reachable-IsHeld {held} {process} p s r =
    let own = Reachable-IsOwned r in
    (
      (own.live p s, own.kept p s),
      λ m.
          let live = own.live p s m in
          (
            (λ e.
                absurd
                  (let k : process.heap 0 ≡ some s = rw e at live in let n = own.no_null in cc)),
            own.c_strings p s live,
            free_defined process p s live,
          ),
    )
