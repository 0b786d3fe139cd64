-- ===== src/Correct/Edits.antt =====
-- crates/core/src/correct/mod.rs: the searches and edits of a token list that the rewrites make.
use autosuggest_core.Base.{
  ℕ, zero, suc, Bool, false, List, [], ◌∷◌, Option, none, some, if◌then◌else◌, ◌>>=◌,
}
use autosuggest_core.Text.{Text, text_eq}

-- `iter().position(|t| t == text)`
unfoldable pub position : List Text → Text → Option ℕ
unfolding text_eq
position [] text = none
position (t ∷ ts) text = if text_eq t text then some 0 else (do i ← position ts text; some (suc i))

-- `Vec::insert`, at a position of the list or its end
unfoldable pub insert_at : List Text → ℕ → Text → List Text
insert_at ts zero text = text ∷ ts
insert_at [] (suc i) text = text ∷ []
insert_at (t ∷ ts) (suc i) text = t ∷ insert_at ts i text

-- `t == Some(text)`
unfoldable pub is_text : Option Text → Text → Bool
unfolding text_eq
is_text none text = false
is_text (some t) text = text_eq t text
