-- ===== src/Tests/Daemon.antt =====
-- crates/daemon with an engine that has one spec and one rule, and inputs of a few bytes.
use autosuggest_core.Protocol.{CompleteRequest, Request, AutosuggestRequest}
use autosuggest_core.Base.{
  ◌⊎◌, false, List, Bool, ◌≡◌, refl, ◌++◌, suc, true, [], ◌∷◌, none, some, inl, inr, if◌then◌else◌,
  length, arith,
}
use autosuggest_core.Base.Int.{ℤ}
use autosuggest_core.Text.{Text, codes, text_eq, len, starts_with, text_cmp}
use autosuggest_core.Text.Utf8.{from_utf8}
use autosuggest_core.Spec.{command}
use autosuggest_core.History.{HistoryWindow}
use autosuggest_core.Complete.{GeneratorRunner, GeneratorError}
use autosuggest_core.Daemon.{Engine, Json, with_runner, respond}
use autosuggest_core.Output.{trim}
use autosuggest_core.Daemon.Scan.{scan_id}
use autosuggest_core.Daemon.Answers.{IsReply, respond-IsReply}
use autosuggest_core.Daemon.Stdin.{pop_char, serve, turn, Turn, Served, Ending}
use autosuggest_core.Daemon.Lines.{serve-returns}
use autosuggest_core.Daemon.Served.{answers, serve-wire, turn-lost}
use autosuggest_core.Base.Order.{IsOrder-IsPreorder}
use autosuggest_core.Base.Sort.{sort_by}
use autosuggest_core.Text.Laws.{text_cmp_trans, text_cmp_flip}
use autosuggest_core.Daemon.Load.{Disk, Entry, IoError, load_dir, spec_suffix}
use autosuggest_core.Daemon.DataFiles.{IsAcceptable}
use autosuggest_core.Daemon.Loaded.{Loads, load_dir-Loads}
use autosuggest_core.Daemon.Main.{parse_args}
use autosuggest_core.Tests.Complete.{one_directory}
use autosuggest_core.Tests.Correct.{plain_engine, path, git, sudo}
use autosuggest_core.Tests.Rank.{thousandths}

scan_id_test : scan_id (codes "{\"v\":1,\"id\": -42,\"op\":\"complete") ≡ some (ℤ.negsuc 41)
unfolding scan_id
scan_id_test = refl

-- The last `i64` is read, and the number behind it is none.
scan_id_bounds_test :
    (scan_id (codes "{\"id\":9223372036854775807") ≡ some (ℤ.pos 9223372036854775807))
    × (scan_id (codes "{\"id\":9223372036854775808") ≡ none)
unfolding scan_id
scan_id_bounds_test = (refl, refl)

abbrev pub silent : GeneratorRunner
silent = record { run = λ g cwd. inr GeneratorError.timeout }

abbrev pub engine : Engine
engine = with_runner (git ∷ []) (sudo ∷ []) path silent

abbrev window : HistoryWindow
window = record {
  entries = record { command = codes "git push"; cwd = none; exit_code = none; ts = none } ∷ [];
}

abbrev question : AutosuggestRequest
question = record { v = 1; id = ℤ.pos 7; prefix = codes "git"; cwd = none; history = some window }

abbrev pub json : Json thousandths
json = record {
  request = λ line.
      if text_eq line (codes "ask") then inl (Request.autosuggest question) else inr (codes "eof");
  id = λ line. none;
  to_string = λ response. some (codes "{}");
}

respond-IsReply_example :
    IsReply thousandths one_directory plain_engine engine json
      (codes "{\"id\":3")
      (respond one_directory thousandths plain_engine json engine (codes "{\"id\":3"))
respond-IsReply_example =
    respond-IsReply thousandths one_directory plain_engine engine json (codes "{\"id\":3")

-- The response repeats the request between brackets.
abbrev echo : Text → Text
echo line = codes "<" ++ (line ++ codes ">")

serve-returns_example :
    (served : Served) × (serve 4 echo (suc (length (codes "ab\n\n"))) (codes "ab\n\n")
      ≡ some served)
serve-returns_example = serve-returns 4 echo (codes "ab\n\n")

serve_test :
    serve 4 echo 9 (codes "ab\r\n \nc")
    ≡ some (record { responses = codes "<ab>" ∷ codes "<c>" ∷ []; ending = Ending.success })
unfolding serve
serve_test = refl

-- Two letters, the second of which is two bytes long, are cut behind the first of these.
panic_test :
    serve 1 echo 9 (97 ∷ 0xC3 ∷ 0xA9 ∷ codes "\n")
    ≡ some (record { responses = []; ending = Ending.panic })
unfolding serve
panic_test = refl

-- A letter of three bytes that begins at the limit is cut by the reader, which then fails.
invalid_test :
    serve 1 echo 9 (97 ∷ 0xE2 ∷ 0x82 ∷ 0xAC ∷ codes "\n")
    ≡ some (record { responses = []; ending = Ending.io_error })
unfolding serve
invalid_test = refl

serve-wire_example :
    serve 4 echo 3 (codes "ab\r\nc\n")
    ≡ some (answers 4 echo ((codes "ab\r", codes "ab\r") ∷ (codes "c", codes "c") ∷ []))
unfolding from_utf8 len
serve-wire_example =
    serve-wire 4 echo ((codes "ab\r", codes "ab\r") ∷ (codes "c", codes "c") ∷ [])
      ((refl, (omega arith, refl)), ((refl, (omega arith, refl)), tt))

turn-lost_example :
    turn 4 echo (codes "abcde\nnext\nlast\n") ≡ Turn.answered (codes "<abcde>") (codes "last\n")
unfolding from_utf8 len pop_char trim
turn-lost_example =
    turn-lost 4 echo (codes "abcde") (codes "next") (codes "last\n") (codes "abcde") refl refl refl
      refl refl refl

abbrev completion : CompleteRequest
completion = record {
  v = 1;
  id = ℤ.pos 9;
  line = codes "git ch";
  cursor = none;
  cwd = none;
  env = none;
}

-- A directory with two specs, whose bytes are their numbers, a note and a directory.
abbrev pub note : Text → Bool → Entry Text ⊎ IoError
note name is_file = inl (record { path = codes "/d/" ++ name; name = name; is_file = inl is_file })

abbrev pub disk : Disk
disk = record {
  PathBuf = Text;
  Bytes = Text;
  path_cmp = text_cmp;
  is_absolute = λ path. starts_with path (codes "/");
  allow_relative = none;
  is_symlink = λ path. some false;
  read_dir = λ path. inl (
      note (codes "b.spec.json") true
      ∷ note (codes "a.spec.json") true
      ∷ note (codes "README.md") true
      ∷ note (codes "c.spec.json") false
      ∷ []);
  read = λ path. inl path;
}

abbrev pub no_mistake : Text → Text ⊎ Text
no_mistake bytes = inl bytes

abbrev loaded : List Text
loaded = codes "/d/a.spec.json" ∷ codes "/d/b.spec.json" ∷ []

load_test : load_dir disk no_mistake (codes "/d") spec_suffix ≡ inl loaded
unfolding load_dir starts_with sort_by text_cmp
load_test = refl

load_dir-Loads_example :
    IsAcceptable disk (codes "/d") × Loads disk no_mistake (codes "/d") spec_suffix loaded
load_dir-Loads_example =
    load_dir-Loads disk no_mistake
      (IsOrder-IsPreorder (record { flip = text_cmp_flip; trans = λ a b c. text_cmp_trans a b c }))
      (codes "/d") spec_suffix loaded load_test

args_test :
    parse_args none [] (codes "specs" ∷ codes "--history-db" ∷ codes "h.db" ∷ codes "rules" ∷ [])
    ≡ (some (codes "h.db"), codes "specs" ∷ codes "rules" ∷ [])
unfolding parse_args
args_test = refl
