-- ===== src/HistoryStore/Suggested.antt =====
-- crates/history-store/src/lib.rs behind the daemon: what it suggests from a store.
use mathlib.Core.List.{Perm, foldr}
use mathlib.Core.Bool.{Bool-set}
use mathlib.Core.List.Perm
use autosuggest_core.Base.{
  ◌≡◌, refl, sym, ◌∙◌, subst, inl, inr, ℕ, ◌<◌, ◌^◌, Bool, true, false, ◌&&◌, List, [], ◌∷◌, ◌++◌,
  Option, none, some, filter, any, ◌||◌, Sum-cases, Option-cases, arith, In, In-take, In-any,
  any-In, In-filter, map-In,
}
use autosuggest_core.Text.{Text, text_eq, starts_with, codes}
use autosuggest_core.Text.Laws.{text_eq_refl, eq_of_text_eq}
use autosuggest_core.Rank.{Float}
use autosuggest_core.Complete.Files.{FileSystem}
use autosuggest_core.Correct.Types.{RegexEngine}
use autosuggest_core.Protocol.{AutosuggestRequest, suggestion_response}
use autosuggest_core.History.{HistoryEntry, HistoryWindow}
use autosuggest_core.History.Sound.{autosuggest-IsRecorded}
use autosuggest_core.Daemon.{Engine, with_history_store, handle_autosuggest, autosuggest_from_store}
use autosuggest_core.Daemon.Answers.{suggested}
use autosuggest_core.HistoryStore.{Sqlite, recent, recent_window}
use autosuggest_core.HistoryStore.Table.{IsTable}
use autosuggest_core.HistoryStore.Replay.{Call, kept, recorded, is_wanted, run, recent-IsWindow}

any-foldr {ℓ} :
    {A : Type ℓ} (p : A → Bool) (xs : List A) → any p xs ≡ foldr (λ x b. p x || b) false xs
any-foldr p [] = refl
any-foldr p (x ∷ xs) = ground (arith, any-foldr p xs)

any-Perm {ℓ} : {A : Type ℓ} (p : A → Bool) {xs ys : List A} → Perm xs ys → any p xs ≡ any p ys
any-Perm p {xs} {ys} h =
    any-foldr p xs
    ∙ Perm.foldr-eq Bool-set (λ x b. p x || b) (λ a b x. ground arith) h false
    ∙ sym (any-foldr p ys)

wanted-cwd :
    (like : Text → Text → Bool) (prefix : Text) (cwd : Option Text) (e : HistoryEntry)
    → is_wanted like prefix cwd e ≡ true
    → (d : Text) → cwd ≡ some d
    → e.cwd ≡ some d
wanted-cwd like prefix none e h d k = absurd (cc)
wanted-cwd like prefix (some c) e h d k = elim (Option-cases e.cwd) [
  | inl n ↦ absurd (let g = rw n at h in ground arith)
  | inr (f, n) ↦
      let g : like (prefix ++ codes "%") e.command && text_eq f c ≡ true = rw n at h in
      let t : f ≡ c = eq_of_text_eq f c (ground arith) in n ∙ (let u : c ≡ d = cc in rw (t, u) refl)
]

module _ (sqlite : Sqlite) {table : sqlite.Connection → List HistoryEntry}
    {like : Text → Text → Bool} (is_table : IsTable sqlite table like) where
  -- An entry of a window was recorded.
  recent-IsKept :
      (calls : List Call) (conn after : sqlite.Connection) (prefix : Text) (limit : ℕ)
      (cwd : Option Text) (window : HistoryWindow) (entry : HistoryEntry)
      → table conn ≡ []
      → run sqlite calls conn ≡ inl after
      → limit < 2 ^ 63
      → recent sqlite prefix limit cwd after ≡ inl window
      → In entry window.entries
      → (e : HistoryEntry) × (In (recorded e) (kept calls [])
          × ((e.command ≡ entry.command) × ((d : Text) → cwd ≡ some d → e.cwd ≡ some d)))
  recent-IsKept calls conn after prefix limit cwd window entry t h l r m =
      let (k, (order, (perm, (sorted, w)))) =
        recent-IsWindow sqlite is_table calls conn after prefix limit cwd window t h l r in
      let same : HistoryEntry → Bool = λ e. text_eq e.command entry.command in
      let found : any same order ≡ true =
        In-any same order (In-take limit order (subst (In entry) w m))
          (text_eq_refl entry.command) in
      let (e, n, q) =
        any-In same (filter (is_wanted like prefix cwd) (table after))
          (sym (any-Perm same perm) ∙ found) in
      let (i, j) = In-filter (is_wanted like prefix cwd) (table after) n in
      (
        e,
        (
          subst (In (recorded e)) k (map-In recorded (table after) i),
          (eq_of_text_eq e.command entry.command q, wanted-cwd like prefix cwd e j),
        ),
      )

  recent-window :
      (conn : sqlite.Connection) (prefix : Text) (limit : ℕ) (cwd : Option Text)
      (window : HistoryWindow)
      → recent_window sqlite conn prefix limit cwd ≡ some window
      → recent sqlite prefix limit cwd conn ≡ inl window
  unfolding recent_window
  recent-window conn prefix limit cwd window h =
      elim (Sum-cases (recent sqlite prefix limit cwd conn)) [
        | inl (w, k) ↦
            (let g : some w ≡ some window = rw (recent_window, k) at h in
              let u : w ≡ window = cc in rw u at k)
        | inr (e, k) ↦ absurd (let g = rw (recent_window, k) at h in cc)
      ]

  module _ (files : FileSystem) (float : Float) (regex : RegexEngine) (engine : Engine)
      (calls : List Call) (conn after : sqlite.Connection) where
    -- A daemon that is asked for a suggestion without a window of history, and has a store that was
    -- empty and has since seen calls of `record` and `clear` that succeeded, suggests only what was
    -- recorded since the last `clear`: a command that extends the prefix and, where a directory is
    -- given, was recorded there.
    pub handle_autosuggest-IsKept :
        (req : AutosuggestRequest) (command : Text)
        → table conn ≡ []
        → run sqlite calls conn ≡ inl after
        → req.history ≡ none
        → suggested float (
            handle_autosuggest files float regex
              (with_history_store engine (recent_window sqlite after))
              req)
          ≡ some command
        → (starts_with command req.prefix ≡ true)
          × ((e : HistoryEntry) × (In (recorded e) (kept calls [])
                × ((e.command ≡ command) × ((d : Text) → req.cwd ≡ some d → e.cwd ≡ some d))))
    unfolding handle_autosuggest suggestion_response autosuggest_from_store with_history_store
    handle_autosuggest-IsKept req command t r n h =
        elim (Option-cases (recent_window sqlite after req.prefix 50 req.cwd)) [
          | inl k ↦ absurd (let g = rw (n, autosuggest_from_store, k) at h in cc)
          | inr (window, k) ↦
              let ((entry, (m, q)), s) =
                (autosuggest-IsRecorded req.prefix window req.cwd).0 command
                  (rw (n, autosuggest_from_store, k) at h) in
              let w = recent-window after req.prefix 50 req.cwd window k in
              let (e, (i, (j, d))) =
                recent-IsKept calls conn after req.prefix 50 req.cwd window entry t r (omega arith)
                  w m in
              (s, (e, (i, (j ∙ q, d))))
        ]
