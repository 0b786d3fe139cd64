-- ===== src/HistoryStore.antt =====
-- crates/history-store/src/lib.rs: the commands that a host records, in a table of SQLite. The
-- library rusqlite is a parameter: what its calls return, with the database behind them. A path is a
-- text.
pub mod Table
pub mod Replay
pub mod Suggested
use autosuggest_core.Base.{
  ◌⊎◌, inl, inr, ℕ, ◌+◌, ◌-◌, ◌^◌, List, [], ◌∷◌, ◌++◌, Option, none, some, ltb, if◌then◌else◌,
}
use autosuggest_core.Base.Int.{ℤ, pos, negsuc}
use autosuggest_core.Text.{Text, codes}
use autosuggest_core.History.{HistoryEntry, HistoryWindow}

-- The parameters of a statement.
pub data Value : Type 0 where
  null : Value
  integer : ℤ → Value
  text : Text → Value

-- `query` stands for `prepare` and `query_map`: the rows, or an error where the next row cannot be
-- had. The last four are `Row::get` at the types of the fields of an entry.
pub record Sqlite : Type 1 where
  pub Connection : Type 0
  pub Row : Type 0
  pub Error : Type 0
  pub connect : Text → Connection ⊎ Error
  pub execute_batch : Text → Connection → Connection ⊎ Error
  pub execute : Text → List Value → Connection → Connection ⊎ Error
  pub query : Text → List Value → Connection → List (Row ⊎ Error) ⊎ Error
  pub get_text : Row → ℕ → Text ⊎ Error
  pub get_optional_text : Row → ℕ → Option Text ⊎ Error
  pub get_optional_i32 : Row → ℕ → Option ℤ ⊎ Error
  pub get_optional_i64 : Row → ℕ → Option ℤ ⊎ Error

abbrev pub create_sql : Text
create_sql =
    codes "CREATE TABLE IF NOT EXISTS history_entries (\n"
    ++ (codes "                id        INTEGER PRIMARY KEY AUTOINCREMENT,\n"
        ++ (codes "                command   TEXT NOT NULL,\n"
            ++ (codes "                cwd       TEXT,\n"
                ++ (codes "                exit_code INTEGER,\n"
                    ++ (codes
                          "                timestamp INTEGER NOT NULL DEFAULT (strftime('%s','now'))\n"
                        ++ (codes "            );\n"
                            ++ (codes
                                  "            CREATE INDEX IF NOT EXISTS idx_history_command_prefix\n"
                                ++ (codes "                ON history_entries(command);\n"
                                    ++ (codes
                                          "            CREATE INDEX IF NOT EXISTS idx_history_timestamp\n"
                                        ++ (codes
                                            "                ON history_entries(timestamp DESC);"))))))))))

abbrev pub insert_sql : Text
insert_sql = codes "INSERT INTO history_entries (command, cwd, exit_code) VALUES (?1, ?2, ?3)"

abbrev pub select_in_sql : Text
select_in_sql =
    codes "SELECT command, cwd, exit_code, timestamp\n"
    ++ (codes "             FROM history_entries\n"
        ++ (codes "             WHERE command LIKE ?1\n"
            ++ (codes "               AND cwd = ?2\n"
                ++ (codes "             ORDER BY timestamp DESC\n"
                    ++ (codes "             LIMIT ?3")))))

abbrev pub select_sql : Text
select_sql =
    codes "SELECT command, cwd, exit_code, timestamp\n"
    ++ (codes "             FROM history_entries\n"
        ++ (codes "             WHERE command LIKE ?1\n"
            ++ (codes "             ORDER BY timestamp DESC\n" ++ (codes "             LIMIT ?2"))))

abbrev pub delete_sql : Text
delete_sql = codes "DELETE FROM history_entries"

unfoldable pub optional_text : Option Text → Value
optional_text none = null
optional_text (some t) = text t

unfoldable pub optional_integer : Option ℤ → Value
optional_integer none = null
optional_integer (some i) = integer i

-- `limit as i64`
unfoldable pub limit_value : ℕ → ℤ
limit_value limit = if ltb limit (2 ^ 63) then pos limit else negsuc (2 ^ 64 - 1 - limit)

module _ (sqlite : Sqlite) where
  unfoldable pub migrate : sqlite.Connection → sqlite.Connection ⊎ sqlite.Error
  migrate conn = sqlite.execute_batch create_sql conn

  unfoldable pub open_store : Text → sqlite.Connection ⊎ sqlite.Error
  unfolding migrate
  open_store path = elim (sqlite.connect path) [ inl conn ↦ migrate conn | inr e ↦ inr e ]

  -- `record`
  unfoldable pub record_command :
      Text → Option Text → Option ℤ → sqlite.Connection → sqlite.Connection ⊎ sqlite.Error
  unfolding optional_text optional_integer
  record_command command cwd exit_code conn =
      sqlite.execute insert_sql (text command ∷ optional_text cwd ∷ optional_integer exit_code ∷ [])
        conn

  unfoldable pub row_to_entry : sqlite.Row → HistoryEntry ⊎ sqlite.Error
  row_to_entry row = elim (sqlite.get_text row 0) [
    | inr e ↦ inr e
    | inl command ↦ elim (sqlite.get_optional_text row 1) [
      | inr e ↦ inr e
      | inl cwd ↦ elim (sqlite.get_optional_i32 row 2) [
        | inr e ↦ inr e
        | inl exit_code ↦ elim (sqlite.get_optional_i64 row 3) [
          | inr e ↦ inr e
          | inl ts ↦ inl (record { command = command; cwd = cwd; exit_code = exit_code; ts = ts })
        ]
      ]
    ]
  ]

  unfoldable pub mapped_row : sqlite.Row ⊎ sqlite.Error → HistoryEntry ⊎ sqlite.Error
  unfolding row_to_entry
  mapped_row (inl row) = row_to_entry row
  mapped_row (inr e) = inr e

  -- `collect` into a `Result`: the entries of all rows, or the first error.
  unfoldable pub collect_rows : List (sqlite.Row ⊎ sqlite.Error) → List HistoryEntry ⊎ sqlite.Error
  unfolding mapped_row
  collect_rows [] = inl []
  collect_rows (row ∷ rows) = elim (mapped_row row) [
    | inr e ↦ inr e
    | inl entry ↦ elim (collect_rows rows) [ inr e ↦ inr e | inl entries ↦ inl (entry ∷ entries) ]
  ]

  -- The statement with its parameters, and its rows.
  unfoldable pub select_rows :
      Text → ℕ → Option Text → sqlite.Connection → List (sqlite.Row ⊎ sqlite.Error) ⊎ sqlite.Error
  unfolding limit_value
  select_rows like_pattern limit (some cwd) conn =
      sqlite.query select_in_sql (text like_pattern ∷ text cwd ∷ integer (limit_value limit) ∷ [])
        conn
  select_rows like_pattern limit none conn =
      sqlite.query select_sql (text like_pattern ∷ integer (limit_value limit) ∷ []) conn

  unfoldable pub recent : Text → ℕ → Option Text → sqlite.Connection → HistoryWindow ⊎ sqlite.Error
  unfolding select_rows collect_rows
  recent prefix limit cwd_filter conn =
      elim (select_rows (prefix ++ codes "%") limit cwd_filter conn) [
        | inr e ↦ inr e
        | inl rows ↦ elim (collect_rows rows) [
          | inr e ↦ inr e
          | inl entries ↦ inl (record { entries = entries })
        ]
      ]

  unfoldable pub clear : sqlite.Connection → sqlite.Connection ⊎ sqlite.Error
  clear conn = sqlite.execute delete_sql [] conn

  -- What an engine asks of an open store: errors are none.
  unfoldable pub recent_window : sqlite.Connection → Text → ℕ → Option Text → Option HistoryWindow
  unfolding recent
  recent_window conn prefix limit cwd = elim (recent prefix limit cwd conn) [
    | inl window ↦ some window
    | inr _ ↦ none
  ]
