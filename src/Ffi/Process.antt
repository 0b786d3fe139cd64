-- ===== src/Ffi/Process.antt =====
-- crates/ffi/src/lib.rs: the strings that the library has handed out, and the engine that it keeps.
pub mod Live
pub mod Owned
pub mod Loaded
use autosuggest_core.Base.{◌≡◌, ℕ, ◌==◌, List, Option, none, some, if◌then◌else◌}
use autosuggest_core.Text.{Text}
use autosuggest_core.Daemon.{max_request_bytes}
use autosuggest_core.Ffi.{Outcome, Handler, OnceLock, request_json_within}

-- What is allocated at each address: the string that stands there until its zero.
abbrev pub Heap : Type 0
Heap = ℕ → Option Text

unfoldable pub write : Heap → ℕ → Option Text → Heap
write heap p s a = if a == p then s else heap a

pub record Process : Type 0 where
  pub engine : OnceLock
  pub heap : Heap

-- `autosuggest_request_json`, with the address `p` that the allocator chooses for `CString::into_raw`:
-- the pointer that it returns, and the process after it.
unfoldable pub request_json : Outcome (Option Handler) → ℕ → Option (List ℕ) → Process → ℕ × Process
unfolding request_json_within write
request_json loading p request process =
    let (s, cell) = request_json_within loading max_request_bytes request process.engine in
    (p, record { engine = cell; heap = write process.heap p (some s) })

-- `autosuggest_string_free`: `none` is undefined behaviour, of a pointer where nothing is allocated.
unfoldable pub string_free : ℕ → Process → Option Process
unfolding write
string_free p process = if p == 0 then some process else (elim (process.heap p) [
  | none ↦ none
  | some _ ↦ some (record process { heap = write process.heap p none })
])
