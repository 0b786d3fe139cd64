-- ===== src/Tests/Ffi.antt =====
-- crates/ffi/src/lib.rs at concrete strings.
use autosuggest_core.Base.{
  true, All, ◌≡◌, ◌≢◌, ◌↔◌, ◌⊎◌, inl, refl, List, ℕ, ◌++◌, ◌∷◌, [], Option, none, some, map, In,
  arith,
}
use autosuggest_core.Text.{Text, codes}
use autosuggest_core.Text.Utf8.{from_utf8}
use autosuggest_core.Output.{trim}
use autosuggest_core.Daemon.{max_request_bytes}
use autosuggest_core.Daemon.Main.{Host}
use autosuggest_core.Daemon.Stdin.{Served, Ending, pop_char}
use autosuggest_core.Ffi.{
  Outcome, returned, panicked, Handler, request_json_within, into_c_string, error_text, caught,
  fallback_error,
}
use autosuggest_core.Ffi.Strings.{IsZeroFree, answer_to, request_json_within-IsAnswer}
use autosuggest_core.Ffi.Process.{Process, request_json, string_free}
use autosuggest_core.Ffi.Process.Owned.{Reachable, start, asked, Reachable-IsHeld}
use autosuggest_core.Ffi.Process.Loaded.{
  asks_engine, Call, answers, answer_of, answers-IsLoadedOnce,
}
use autosuggest_core.Ffi.Agreement.{daemon, interface, main-Agrees}
use autosuggest_core.Tests.Daemon.{silent, json, disk}
use autosuggest_core.Tests.Complete.{one_directory}
use autosuggest_core.Tests.Correct.{plain_engine, path, git, sudo}
use autosuggest_core.Tests.Rank.{thousandths}

abbrev echo : Handler
echo = λ line. returned (codes "<" ++ (line ++ codes ">"))

-- What a load comes to.
abbrev loads : Outcome (Option Handler)
loads = returned (some echo)

answered_test :
    request_json_within loads 4 (some (codes "ask" ++ 0 ∷ codes "rest")) none
    ≡ (codes "<ask>", some (some echo))
unfolding request_json_within
answered_test = refl

too_long_test :
    request_json_within loads 2 (some (codes "ask" ++ 0 ∷ [])) none
    ≡ (error_text (codes "request exceeds byte limit"), none)
unfolding request_json_within error_text
too_long_test = refl

-- A load that panics is caught, and is tried again.
panicked_test :
    request_json_within panicked 4 (some (codes "ask" ++ 0 ∷ [])) none ≡ (fallback_error, none)
unfolding request_json_within
panicked_test = refl

request_json_within-IsAnswer_example :
    (request_json_within loads 4 (some (codes "ask" ++ 0 ∷ codes "rest")) none
      ≡ (caught (answer_to loads 4 none (codes "ask")).0, (answer_to loads 4 none (codes "ask")).1))
    × IsZeroFree (request_json_within loads 4 none none).0
request_json_within-IsAnswer_example =
    request_json_within-IsAnswer loads 4 none (codes "ask") (codes "rest") none refl

-- The calls of a caller that asks once, and asks again when no load would succeed.
abbrev first : List Call
first = (loads, some (codes "ask" ++ 0 ∷ [])) ∷ []

abbrev later : List Call
later = (returned none, some (codes "on" ++ 0 ∷ [])) ∷ []

answers-IsLoadedOnce_example :
    (((answers 4 first none).1 ≡ none)
      × All (λ (c : Call). asks_engine 4 c.1 ≡ true → c.0 ≡ panicked) first)
    ⊎ ((loaded : Option Handler) × (((request : Option (List ℕ)) × In {A = Call}
              (returned loaded, request)
              first)
          × (answers 4 (first ++ later) none ≡ (
            (answers 4 first none).0 ++ map (λ c. answer_of 4 loaded c.1) later,
            some loaded,
          ))))
answers-IsLoadedOnce_example = answers-IsLoadedOnce 4 first later

abbrev new_process : Process
new_process = record { engine = none; heap = λ _. none }

-- A caller holds the error that it got for null, at address 7.
abbrev asked_null : Process
asked_null = (request_json loads 7 none new_process).1

abbrev null_text : Text
null_text = (request_json_within loads max_request_bytes none none).0

asked_null-Reachable : Reachable ((7, null_text) ∷ []) asked_null
unfolding request_json
asked_null-Reachable = asked [] new_process loads 7 none (start new_process refl) (omega arith) refl

Reachable-IsHeld_example :
    (In {A = ℕ × Text} (7, null_text) ((7, null_text) ∷ []) ↔ (asked_null.heap 7 ≡ some null_text))
    × (In {A = ℕ × Text} (7, null_text) ((7, null_text) ∷ [])
        → (◌≢◌ {A = ℕ} 7 0)
          × IsZeroFree null_text
          × ((after : Process) × (string_free 7 asked_null ≡ some after)))
Reachable-IsHeld_example = Reachable-IsHeld 7 null_text asked_null-Reachable

abbrev host : Host Text
host = record {
  of_text = λ text. text;
  var = λ name. none;
  current_dir = some (codes "/d");
  join = λ cwd path. cwd ++ (codes "/" ++ path);
}

abbrev lines : List (List ℕ × Text)
lines = (codes "ask", codes "ask") ∷ []

main-Agrees_example :
    (served : Served) × (daemon disk host
        (λ _. inl git)
        (λ _. inl sudo)
        (λ _. none)
        path
        silent
        one_directory
        thousandths
        plain_engine
        json
        lines
      ≡ some served)
    × (((served.ending ≡ Ending.success)
          × (interface disk host
                (λ _. inl git)
                (λ _. inl sudo)
                (λ _. none)
                path
                silent
                one_directory
                thousandths
                plain_engine
                json
                lines
              ≡ map into_c_string served.responses))
        ⊎ ((served ≡ record { responses = []; ending = Ending.io_error })
            × (interface disk host
                  (λ _. inl git)
                  (λ _. inl sudo)
                  (λ _. none)
                  path
                  silent
                  one_directory
                  thousandths
                  plain_engine
                  json
                  lines
                ≡ map (λ _. fallback_error) lines)))
unfolding from_utf8 trim pop_char
main-Agrees_example =
    main-Agrees disk host (λ _. inl git) (λ _. inl sudo) (λ _. none) path silent one_directory
      thousandths plain_engine json lines refl ((refl, (omega arith, refl)), tt)
      ((refl, (refl, refl)), tt)
