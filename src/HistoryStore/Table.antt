-- ===== src/HistoryStore/Table.antt =====
-- crates/history-store/src/lib.rs: what SQLite documents of the statements, on the table of entries.
use mathlib.Core.List.{Perm}
use autosuggest_core.Base.{
  ◌≡◌, ◌⊎◌, inl, inr, Bool, false, ◌&&◌, List, [], ◌∷◌, ◌++◌, Option, none, some, take, filter,
}
use autosuggest_core.Base.Int.{ℤ, pos, negsuc}
use autosuggest_core.Base.Sort.{IsSortedBy}
use autosuggest_core.Text.{Text, codes, text_eq}
use autosuggest_core.History.{HistoryEntry}
use autosuggest_core.History.Recent.{by_stamp}
use autosuggest_core.HistoryStore.{text, integer, Sqlite, optional_text, optional_integer}

-- `LIMIT`: a negative number is no limit.
abbrev pub cut : ℤ → List HistoryEntry → List HistoryEntry
cut (pos n) es = take n es
cut (negsuc n) es = es

-- `cwd = ?2`, which no NULL meets.
abbrev pub cwd_is : Text → HistoryEntry → Bool
cwd_is cwd e = elim e.cwd [ none ↦ false | some d ↦ text_eq d cwd ]

-- The statements whose effect is documented.
abbrev insert_statement : Text
insert_statement = codes "INSERT INTO history_entries (command, cwd, exit_code) VALUES (?1, ?2, ?3)"

abbrev delete_statement : Text
delete_statement = codes "DELETE FROM history_entries"

abbrev select_statement : Text
select_statement =
    codes "SELECT command, cwd, exit_code, timestamp\n"
    ++ (codes "             FROM history_entries\n"
        ++ (codes "             WHERE command LIKE ?1\n"
            ++ (codes "             ORDER BY timestamp DESC\n" ++ (codes "             LIMIT ?2"))))

abbrev select_in_statement : Text
select_in_statement =
    codes "SELECT command, cwd, exit_code, timestamp\n"
    ++ (codes "             FROM history_entries\n"
        ++ (codes "             WHERE command LIKE ?1\n"
            ++ (codes "               AND cwd = ?2\n"
                ++ (codes "             ORDER BY timestamp DESC\n"
                    ++ (codes "             LIMIT ?3")))))

module _ (sqlite : Sqlite) where
  -- The columns of a row are the fields of an entry.
  abbrev pub Holds : sqlite.Row → HistoryEntry → Type 0
  Holds row e =
      (sqlite.get_text row 0 ≡ inl e.command)
      × ((sqlite.get_optional_text row 1 ≡ inl e.cwd)
          × ((sqlite.get_optional_i32 row 2 ≡ inl e.exit_code)
              × (sqlite.get_optional_i64 row 3 ≡ inl e.ts)))

  -- The rows are those of the entries, up to the first that cannot be had.
  abbrev pub Yields : List (sqlite.Row ⊎ sqlite.Error) → List HistoryEntry → Type 0
  Yields [] [] = Unit
  Yields [] (e ∷ es) = ⊥
  Yields (inr error ∷ rows) es = Unit
  Yields (inl row ∷ rows) [] = ⊥
  Yields (inl row ∷ rows) (e ∷ es) = Holds row e × Yields rows es

  -- The rows of a `SELECT`: the entries that the condition holds of, from newer to older, up to the
  -- limit.
  abbrev pub Selects :
      (HistoryEntry → Bool) → ℤ → List HistoryEntry → List (sqlite.Row ⊎ sqlite.Error) → Type 0
  Selects condition limit entries rows =
      (order : List HistoryEntry) × (Perm order (filter condition entries)
        × (IsSortedBy by_stamp order × Yields rows (cut limit order)))

  -- `table` is what stands in the table of a database, in the order of the row ids, and `like` is
  -- `LIKE`, the pattern first.
  pub record IsTable (table : sqlite.Connection → List HistoryEntry) (like : Text → Text → Bool)
      : Type 0 where
    pub inserts :
        (conn after : sqlite.Connection) (command : Text) (cwd : Option Text) (exit_code : Option ℤ)
        → sqlite.execute insert_statement
            (text command ∷ optional_text cwd ∷ optional_integer exit_code ∷ [])
            conn
          ≡ inl after
        → (ts : ℤ) × (table after
            ≡ table conn
              ++ record { command = command; cwd = cwd; exit_code = exit_code; ts = some ts } ∷ [])
    pub deletes :
        (conn after : sqlite.Connection)
        → sqlite.execute delete_statement [] conn ≡ inl after
        → table after ≡ []
    pub selects :
        (conn : sqlite.Connection) (pattern : Text) (limit : ℤ)
        (rows : List (sqlite.Row ⊎ sqlite.Error))
        → sqlite.query select_statement (text pattern ∷ integer limit ∷ []) conn ≡ inl rows
        → Selects (λ e. like pattern e.command) limit (table conn) rows
    pub selects_in :
        (conn : sqlite.Connection) (pattern cwd : Text) (limit : ℤ)
        (rows : List (sqlite.Row ⊎ sqlite.Error))
        → sqlite.query select_in_statement (text pattern ∷ text cwd ∷ integer limit ∷ []) conn
          ≡ inl rows
        → Selects (λ e. like pattern e.command && cwd_is cwd e) limit (table conn) rows
