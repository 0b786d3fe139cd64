-- ===== src/Tests/HistoryStore.antt =====
-- crates/history-store/src/lib.rs over a table in memory.
use mathlib.Core.List.{Perm}
use autosuggest_core.Base.{
  ◌≡◌, refl, subst, ◌⊎◌, inl, inr, Bool, true, ◌&&◌, ◌==◌, if◌then◌else◌, List, [], ◌∷◌, ◌++◌, map,
  Option, none, some, take, filter, is_empty, length, arith, In,
}
use autosuggest_core.Base.Int.{ℤ, pos}
use autosuggest_core.Base.Sort.{sort_by, sort_by-perm, sort_by-IsSortedBy, IsSortedBy}
use autosuggest_core.Text.{Text, codes, starts_with, text_eq}
use autosuggest_core.History.{HistoryEntry, HistoryWindow, newer_first}
use autosuggest_core.History.Dedupe.{newer_first-IsPreorder}
use autosuggest_core.History.Recent.{by_stamp}
use autosuggest_core.Protocol.{AutosuggestRequest}
use autosuggest_core.Daemon.{with_history_store, handle_autosuggest}
use autosuggest_core.Daemon.Answers.{suggested}
use autosuggest_core.HistoryStore.{
  Value, text, integer, Sqlite, optional_text, optional_integer, recent, recent_window,
}
use autosuggest_core.HistoryStore.Table.{cut, cwd_is, Yields, Selects, IsTable}
use autosuggest_core.HistoryStore.Replay.{
  Call, records, clears, Recorded, kept, recorded, is_wanted, run, recent-IsWindow,
}
use autosuggest_core.HistoryStore.Suggested.{handle_autosuggest-IsKept}
use autosuggest_core.Tests.Complete.{one_directory}
use autosuggest_core.Tests.Correct.{plain_engine}
use autosuggest_core.Tests.Daemon.{engine}
use autosuggest_core.Tests.Rank.{thousandths}

abbrev Rows : Type 0
Rows = List HistoryEntry

text_of : Value → Option Text
text_of (text t) = some t
text_of _ = none

integer_of : Value → Option ℤ
integer_of (integer i) = some i
integer_of _ = none

text_of-optional_text : (t : Option Text) → text_of (optional_text t) ≡ t
unfolding text_of optional_text
text_of-optional_text none = refl
text_of-optional_text (some t) = refl

integer_of-optional_integer : (i : Option ℤ) → integer_of (optional_integer i) ≡ i
unfolding integer_of optional_integer
integer_of-optional_integer none = refl
integer_of-optional_integer (some i) = refl

-- A pattern whose only wildcard is the per cent sign at its end.
like : Text → Text → Bool
like [] ds = is_empty ds
like (c ∷ cs) [] = c == b'%' && is_empty cs
like (c ∷ cs) (d ∷ ds) = if c == b'%' then true else c == d && like cs ds

-- The statements are told apart by their parameters; the stamp of an entry is the number of those
-- before it.
executed : List Value → Rows → Rows ⊎ Text
unfolding text_of integer_of
executed (text command ∷ cwd ∷ exit_code ∷ []) rows = inl (
    rows
    ++ record {
      command = command;
      cwd = text_of cwd;
      exit_code = integer_of exit_code;
      ts = some (pos (length rows));
    }
      ∷ [])
executed _ rows = inl []

selected : (HistoryEntry → Bool) → ℤ → Rows → List (HistoryEntry ⊎ Text)
selected condition limit rows = map inl (cut limit (sort_by newer_first (filter condition rows)))

queried : List Value → Rows → List (HistoryEntry ⊎ Text) ⊎ Text
unfolding selected like
queried (text pattern ∷ integer limit ∷ []) rows =
    inl (selected (λ e. like pattern e.command) limit rows)
queried (text pattern ∷ text cwd ∷ integer limit ∷ []) rows =
    inl (selected (λ e. like pattern e.command && cwd_is cwd e) limit rows)
queried _ rows = inr (codes "parameters")

abbrev memory : Sqlite
memory = record {
  Connection = Rows;
  Row = HistoryEntry;
  Error = Text;
  connect = λ path. inl [];
  execute_batch = λ sql rows. inl rows;
  execute = λ sql values. executed values;
  query = λ sql values. queried values;
  get_text = λ e column. inl (e.command);
  get_optional_text = λ e column. inl (e.cwd);
  get_optional_i32 = λ e column. inl (e.exit_code);
  get_optional_i64 = λ e column. inl (e.ts);
}

map-Yields : (es : Rows) → Yields memory (map inl es) es
map-Yields [] = tt
map-Yields (e ∷ es) = ((refl, (refl, (refl, refl))), map-Yields es)

inserted_row :
    (conn after : Rows) (command : Text) (cwd : Option Text) (exit_code : Option ℤ)
    → executed (text command ∷ optional_text cwd ∷ optional_integer exit_code ∷ []) conn ≡ inl after
    → (ts : ℤ) × (after
        ≡ conn ++ record { command = command; cwd = cwd; exit_code = exit_code; ts = some ts } ∷ [])
unfolding executed
inserted_row conn after command cwd exit_code h =
    let e = text_of-optional_text cwd in
    let i = integer_of-optional_integer exit_code in
    let g = rw (e, i) at h in (pos (length conn), (cc))

selected-Selects :
    (condition : HistoryEntry → Bool) (limit : ℤ) (conn : Rows) (rows : List (HistoryEntry ⊎ Text))
    → selected condition limit conn ≡ rows
    → Selects memory condition limit conn rows
unfolding selected newer_first
selected-Selects condition limit conn rows h =
    let order = sort_by newer_first (filter condition conn) in
    (
      order,
      (
        sort_by-perm newer_first (filter condition conn),
        (
          sort_by-IsSortedBy newer_first-IsPreorder (filter condition conn),
          subst (λ r. Yields memory r (cut limit order)) h (map-Yields (cut limit order)),
        ),
      ),
    )

memory-IsTable : IsTable memory (λ rows. rows) like
unfolding executed queried
memory-IsTable = record {
  inserts = inserted_row;
  deletes = λ conn after h. (cc);
  selects = λ conn pattern limit rows h.
      selected-Selects (λ e. like pattern e.command) limit conn rows (cc);
  selects_in = λ conn pattern cwd limit rows h.
      selected-Selects (λ e. like pattern e.command && cwd_is cwd e) limit conn rows (cc);
}

abbrev repo : Option Text
repo = some (codes "/repo")

abbrev calls : List Call
calls =
    records (codes "git clone") repo none
    ∷ clears
    ∷ records (codes "git status") repo (some (pos 0))
    ∷ records (codes "git push") none none
    ∷ records (codes "ls") repo (some (pos 0))
    ∷ []

abbrev after : Rows
after =
    record { command = codes "git status"; cwd = repo; exit_code = some (pos 0); ts = some (pos 0) }
    ∷ record { command = codes "git push"; cwd = none; exit_code = none; ts = some (pos 1) }
    ∷ record { command = codes "ls"; cwd = repo; exit_code = some (pos 0); ts = some (pos 2) }
    ∷ []

run_test : run memory calls [] ≡ inl after
unfolding run executed text_of integer_of optional_text optional_integer
run_test = refl

abbrev window : HistoryWindow
window = record {
  entries =
      record { command = codes "git push"; cwd = none; exit_code = none; ts = some (pos 1) } ∷ [];
}

recent_test : recent memory (codes "git") 1 none after ≡ inl window
unfolding recent queried selected like sort_by newer_first
recent_test = refl

recent-IsWindow_example :
    (map {A = HistoryEntry} {B = Recorded} recorded after ≡ kept calls [])
    × ((order : List HistoryEntry) × (Perm order (filter (is_wanted like (codes "git") none) after)
          × (IsSortedBy by_stamp order × (window.entries ≡ take 1 order))))
recent-IsWindow_example =
    recent-IsWindow memory memory-IsTable calls [] after (codes "git") 1 none window refl run_test
      (omega arith) recent_test

abbrev question : AutosuggestRequest
question = record { v = 1; id = pos 7; prefix = codes "git"; cwd = repo; history = none }

suggested_test :
    suggested thousandths (
      handle_autosuggest one_directory thousandths plain_engine
        (with_history_store engine (recent_window memory after))
        question)
    ≡ some (codes "git status")
unfolding handle_autosuggest recent_window queried selected like sort_by newer_first text_eq
    with_history_store
suggested_test = refl

handle_autosuggest-IsKept_example :
    (starts_with (codes "git status") (codes "git") ≡ true)
    × ((e : HistoryEntry) × (In {A = Recorded} (recorded e) (kept calls [])
          × ((e.command ≡ codes "git status") × ((d : Text) → repo ≡ some d → e.cwd ≡ some d))))
handle_autosuggest-IsKept_example =
    handle_autosuggest-IsKept memory memory-IsTable one_directory thousandths plain_engine engine
      calls [] after question (codes "git status") refl run_test refl suggested_test
