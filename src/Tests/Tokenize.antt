-- ===== src/Tests/Tokenize.antt =====
-- crates/core/src/tokenize.rs at concrete lines.
use autosuggest_core.Base.{◌≡◌, refl, map, [], ◌∷◌, true, all, ltb, arith}
use autosuggest_core.Text.{
  Text, codes, len, len_utf8, slice, from_offset, to_offset, is_whitespace, lead_byte,
}
use autosuggest_core.Tokenize.{
  Token, lex, tokenize, clamp_cursor, scan_word, scan_step, skip_whitespace, lex_token, lex_loop,
  find_cursor, edits, next_is_boundary, prefix_at, unquote, unquote_loop, unquote_step,
}
use autosuggest_core.Tokenize.Lexing.{IsUnicode, Words, lex-Words}
use autosuggest_core.Tokenize.Cursor.{Finds, tokenize-Finds}

abbrev commit_line : Text
commit_line = codes "git commit -m \"fix bug\" é"

IsUnicode-of_all : (line : Text) → all (λ c. ltb c 0x110000) line ≡ true → IsUnicode line
IsUnicode-of_all [] h = tt
IsUnicode-of_all (c ∷ cs) h = (ground arith, IsUnicode-of_all cs (ground arith))

commit_line-IsUnicode : IsUnicode commit_line
commit_line-IsUnicode = IsUnicode-of_all commit_line refl

lex-Words_example : Words [] commit_line (lex commit_line)
lex-Words_example = lex-Words commit_line commit_line-IsUnicode

tokenize-Finds_example :
    Finds commit_line
      (clamp_cursor commit_line 7)
      0
      (tokenize commit_line 7).tokens
      (tokenize commit_line 7).cursor_token
tokenize-Finds_example = tokenize-Finds commit_line 7 commit_line-IsUnicode

-- `git commit -m "fix bug" é`: the quoted words are one token.
lexed :
    map (λ (t : Token). t.text) (lex commit_line)
    ≡ codes "git" ∷ codes "commit" ∷ codes "-m" ∷ codes "fix bug" ∷ codes "é" ∷ []
unfolding lex lex_loop lex_token skip_whitespace scan_word scan_step is_whitespace lead_byte
    len_utf8 slice from_offset to_offset
lexed = refl

-- In the middle of `commit`, the query is what stands before the cursor.
cursor_inside : (tokenize commit_line 7).query_prefix ≡ codes "com"
unfolding tokenize lex lex_loop lex_token skip_whitespace scan_word scan_step is_whitespace
    lead_byte len_utf8 slice from_offset to_offset prefix_at find_cursor edits next_is_boundary
    unquote unquote_loop unquote_step len
cursor_inside = refl
