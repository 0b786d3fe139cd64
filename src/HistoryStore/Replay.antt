-- ===== src/HistoryStore/Replay.antt =====
-- crates/history-store/src/lib.rs: what a store returns after any calls.
use mathlib.Core.List.{Perm, map-append}
use autosuggest_core.Base.{
  ◌≡◌, refl, sym, ap, ◌∙◌, ◌⊎◌, inl, inr, ℕ, ◌<◌, ◌^◌, Bool, true, ◌&&◌, ltb, List, [], ◌∷◌, ◌++◌,
  map, Option, none, some, take, filter, Sum-cases, arith,
}
use autosuggest_core.Base.Int.{ℤ, pos}
use autosuggest_core.Base.Sort.{IsSortedBy}
use autosuggest_core.Text.{Text, codes}
use autosuggest_core.History.{HistoryEntry, HistoryWindow}
use autosuggest_core.History.Recent.{by_stamp}
use autosuggest_core.HistoryStore.{
  Sqlite, limit_value, record_command, row_to_entry, mapped_row, collect_rows, select_rows, recent,
  clear,
}
use autosuggest_core.HistoryStore.Table.{cwd_is, Holds, Yields, Selects, IsTable}

pub data Call : Type 0 where
  records : Text → Option Text → Option ℤ → Call
  clears : Call

-- A command with its directory and its exit code, as it was recorded.
abbrev pub Recorded : Type 0
Recorded = Text × Option Text × Option ℤ

-- What has been recorded since the last call of `clear`, behind what was there.
abbrev pub kept : List Call → List Recorded → List Recorded
kept [] log = log
kept (records command cwd exit_code ∷ calls) log =
    kept calls (log ++ (command, cwd, exit_code) ∷ [])
kept (clears ∷ calls) log = kept calls []

abbrev pub recorded : HistoryEntry → Recorded
recorded e = (e.command, e.cwd, e.exit_code)

-- The entries that are asked for.
abbrev pub is_wanted : (Text → Text → Bool) → Text → Option Text → HistoryEntry → Bool
is_wanted like prefix none e = like (prefix ++ codes "%") e.command
is_wanted like prefix (some cwd) e = like (prefix ++ codes "%") e.command && cwd_is cwd e

limit_value-pos : (limit : ℕ) → limit < 2 ^ 63 → limit_value limit ≡ pos limit
unfolding limit_value
limit_value-pos limit h = let e : ltb limit (2 ^ 63) ≡ true = ground arith in rw e refl

module _ (sqlite : Sqlite) where
  unfoldable pub perform : Call → sqlite.Connection → sqlite.Connection ⊎ sqlite.Error
  unfolding record_command clear
  perform (records command cwd exit_code) conn = record_command sqlite command cwd exit_code conn
  perform clears conn = clear sqlite conn

  -- Calls in their order, as long as they succeed.
  unfoldable pub run : List Call → sqlite.Connection → sqlite.Connection ⊎ sqlite.Error
  unfolding perform
  run [] conn = inl conn
  run (call ∷ calls) conn = elim (perform call conn) [ inl after ↦ run calls after | inr e ↦ inr e ]

  mapped_row-Holds :
      (row : sqlite.Row) (e : HistoryEntry)
      → Holds sqlite row e
      → mapped_row sqlite (inl row) ≡ inl e
  unfolding mapped_row
  mapped_row-Holds row e h = rw (row_to_entry, h.0, h.1.0, h.1.1.0, h.1.1.1) refl

  collect_rows-Yields :
      (rows : List (sqlite.Row ⊎ sqlite.Error)) (es entries : List HistoryEntry)
      → Yields sqlite rows es
      → collect_rows sqlite rows ≡ inl entries
      → entries ≡ es
  unfolding collect_rows mapped_row
  collect_rows-Yields [] [] entries y h = cc
  collect_rows-Yields [] (e ∷ es) entries y h = absurd y
  collect_rows-Yields (inr error ∷ rows) es entries y h = absurd (cc)
  collect_rows-Yields (inl row ∷ rows) [] entries y h = absurd y
  collect_rows-Yields (inl row ∷ rows) (e ∷ es) entries y h =
      let k = mapped_row-Holds row e y.0 in
      elim (Sum-cases (collect_rows sqlite rows)) [
        | inl (rest, l) ↦
            (let q = collect_rows-Yields rows es rest y.1 l in
              let g = rw (collect_rows, k, l) at h in cc)
        | inr (error, l) ↦ absurd (let g = rw (collect_rows, k, l) at h in cc)
      ]

  module _ {table : sqlite.Connection → List HistoryEntry} {like : Text → Text → Bool}
      (is_table : IsTable sqlite table like) where
    record_command-table :
        (command : Text) (cwd : Option Text) (exit_code : Option ℤ) (conn after : sqlite.Connection)
        → record_command sqlite command cwd exit_code conn ≡ inl after
        → map recorded (table after) ≡ map recorded (table conn) ++ (command, cwd, exit_code) ∷ []
    unfolding record_command
    record_command-table command cwd exit_code conn after h =
        let (ts, t) = is_table.inserts conn after command cwd exit_code h in
        ap (map recorded) t ∙ map-append recorded (table conn) _

    clear-table :
        (conn after : sqlite.Connection) → clear sqlite conn ≡ inl after → table after ≡ []
    unfolding clear
    clear-table = is_table.deletes

    run-table :
        (calls : List Call) (conn after : sqlite.Connection)
        → run calls conn ≡ inl after
        → map recorded (table after) ≡ kept calls (map recorded (table conn))
    unfolding run
    run-table [] conn after h = let e : conn ≡ after = cc in rw e refl
    run-table (records command cwd exit_code ∷ calls) conn after h =
        elim (Sum-cases (record_command sqlite command cwd exit_code conn)) [
          | inr (e, k) ↦ absurd (let g = rw (run, perform, k) at h in cc)
          | inl (next, k) ↦
              run-table calls next after (rw (run, perform, k) at h)
              ∙ ap (kept calls) (record_command-table command cwd exit_code conn next k)
        ]
    run-table (clears ∷ calls) conn after h = elim (Sum-cases (clear sqlite conn)) [
      | inr (e, k) ↦ absurd (let g = rw (run, perform, k) at h in cc)
      | inl (next, k) ↦
          run-table calls next after (rw (run, perform, k) at h)
          ∙ ap (λ t. kept calls (map recorded t)) (clear-table conn next k)
    ]

    select_rows-Selects :
        (prefix : Text) (limit : ℕ) (cwd : Option Text) (conn : sqlite.Connection)
        (rows : List (sqlite.Row ⊎ sqlite.Error))
        → limit < 2 ^ 63
        → select_rows sqlite (prefix ++ codes "%") limit cwd conn ≡ inl rows
        → Selects sqlite (is_wanted like prefix cwd) (pos limit) (table conn) rows
    unfolding select_rows
    select_rows-Selects prefix limit none conn rows l h =
        let e = limit_value-pos limit l in
        is_table.selects conn (prefix ++ codes "%") (pos limit) rows (rw (select_rows, e) at h)
    select_rows-Selects prefix limit (some cwd) conn rows l h =
        let e = limit_value-pos limit l in
        is_table.selects_in conn (prefix ++ codes "%") cwd (pos limit) rows
          (rw (select_rows, e) at h)

    recent-Selects :
        (prefix : Text) (limit : ℕ) (cwd : Option Text) (conn : sqlite.Connection)
        (window : HistoryWindow)
        → limit < 2 ^ 63
        → recent sqlite prefix limit cwd conn ≡ inl window
        → (order : List HistoryEntry) × (Perm order
              (filter (is_wanted like prefix cwd) (table conn))
            × (IsSortedBy by_stamp order × (window.entries ≡ take limit order)))
    unfolding recent
    recent-Selects prefix limit cwd conn window l h =
        elim (Sum-cases (select_rows sqlite (prefix ++ codes "%") limit cwd conn)) [
          | inr (e, k) ↦ absurd (let g = rw (recent, k) at h in cc)
          | inl (rows, k) ↦ elim (Sum-cases (collect_rows sqlite rows)) [
            | inr (e, m) ↦ absurd (let g = rw (recent, k, m) at h in cc)
            | inl (entries, m) ↦
                let (order, (perm, (sorted, yields))) =
                  select_rows-Selects prefix limit cwd conn rows l k in
                let g : record { entries = entries } ≡ window =
                  (let i = rw (recent, k, m) at h in cc) in
                (
                  order,
                  (
                    perm,
                    (
                      sorted,
                      ap (λ (w : HistoryWindow). w.entries) (sym g)
                          ∙ collect_rows-Yields rows (take limit order) entries yields m,
                    ),
                  ),
                )
          ]
        ]

    -- After calls of `record` and `clear` that succeeded, on a store that was empty, the entries of the
    -- table are what was recorded since the last `clear`, in that order; and a window that `recent`
    -- returns for a limit below 2 ^ 63 holds those entries of the table, with the stamps that they have
    -- there, that are wanted: like the prefix and, where a directory is given, recorded there; by
    -- descending stamp, and up to the limit.
    pub recent-IsWindow :
        (calls : List Call) (conn after : sqlite.Connection) (prefix : Text) (limit : ℕ)
        (cwd : Option Text) (window : HistoryWindow)
        → table conn ≡ []
        → run calls conn ≡ inl after
        → limit < 2 ^ 63
        → recent sqlite prefix limit cwd after ≡ inl window
        → (map recorded (table after) ≡ kept calls [])
          × ((order : List HistoryEntry) × (Perm order
                  (filter (is_wanted like prefix cwd) (table after))
                × (IsSortedBy by_stamp order × (window.entries ≡ take limit order))))
    recent-IsWindow calls conn after prefix limit cwd window e h l r = (
      run-table calls conn after h ∙ ap (λ t. kept calls (map recorded t)) e,
      recent-Selects prefix limit cwd after window l r,
    )
