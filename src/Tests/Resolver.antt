-- ===== src/Tests/Resolver.antt =====
-- crates/core/src/correct/resolver.rs over a directory with a program and a note.
use autosuggest_core.Base.{
  ◌≡◌, refl, sym, ap, subst, true, false, ◌==◌, [], ◌∷◌, none, some, any, is_empty, if◌then◌else◌,
  In, here, there,
}
use autosuggest_core.Text.{Text, codes, text_eq}
use autosuggest_core.Correct.Types.{CorrectContext, context}
use autosuggest_core.Correct.Native.{tokens, no_command}
use autosuggest_core.Correct.Resolver.{
  FileMetadata, DirEntry, PathSystem, exists_in, commands_in, from_dirs,
}
use autosuggest_core.Correct.Installed.{IsStable, Runs, no_command-Runs}

abbrev program : FileMetadata
program = record { is_file = true; mode = 493 }

abbrev git_entry : DirEntry
git_entry = record { metadata = some program; name = some (codes "git") }

-- Every name is a program in the one directory that there is, which lists one.
abbrev bin : PathSystem
bin = record {
  PathBuf = Text;
  join = λ dir name. name;
  metadata = λ path. if text_eq path (codes "git") then some program else none;
  read_dir = λ dir. some (git_entry ∷ []);
  search_path = codes "/bin" ∷ [];
  is_empty_path = is_empty;
}

abbrev failed : CorrectContext
failed = context (codes "gti status") [] none

git_name :
    (entry : DirEntry) (name : Text)
    → In entry (git_entry ∷ [])
    → entry.name ≡ some name
    → codes "git" ≡ name
git_name entry name (here e) n = let k : some (codes "git") ≡ some name = rw e at n in cc
git_name entry name (there m) n = elim m [ ]

git_program :
    (entry : DirEntry) (meta : FileMetadata)
    → In entry (git_entry ∷ [])
    → entry.metadata ≡ some meta
    → program ≡ meta
git_program entry meta (here e) n = let k : some program ≡ some meta = rw e at n in cc
git_program entry meta (there m) n = elim m [ ]

bin-IsStable : IsStable bin
unfolding text_eq
bin-IsStable = record {
  named = λ dir entries entry name e m n.
      let es : git_entry ∷ [] ≡ entries = cc in
      let k = git_name entry name (subst (In entry) (sym es) m) n in
      subst (λ t. (is_empty t ≡ false) × (any (λ c. c == b'/') t ≡ false)) k (refl, refl);
  found = λ dir entries entry name meta e m n q f.
      let es : git_entry ∷ [] ≡ entries = cc in
      let k = git_name entry name (subst (In entry) (sym es) m) n in
      let l = git_program entry meta (subst (In entry) (sym es) m) q in
      subst (λ t. (if text_eq t (codes "git") then some program else none) ≡ some meta) k
        (ap (λ x. some x) l);
}

fix_listed : In (codes "git status") (no_command failed (from_dirs bin (codes "/bin" ∷ [])))
unfolding no_command from_dirs exists_in commands_in context
fix_listed = here refl

no_command-Runs_example : Runs bin (codes "/bin" ∷ []) (tokens failed.script) (codes "git status")
no_command-Runs_example =
    no_command-Runs bin bin-IsStable (codes "/bin" ∷ []) failed (codes "git status") fix_listed
