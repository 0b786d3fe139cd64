-- ===== src/Lib.antt =====
-- autosuggest-core: completion, history suggestions and corrections for a shell.
--
-- The program turns a command line and its context into suggestions. crates/core is the engine;
-- around it crates/data runs the programs that generate suggestions, crates/protocol holds the
-- messages and crates/daemon answers them, one on each line of its standard input; crates/ffi
-- does so for C strings. A completion passes through four stages: crates/core/src/tokenize.rs
-- splits the line and finds the token at the cursor, parse.rs walks the committed tokens
-- against a spec tree and classifies the cursor, complete.rs collects candidates and rank.rs
-- orders them. A history suggestion is one call of history.rs on a window of commands. A
-- correction is one call of correct/mod.rs, which evaluates declarative rules and the native
-- rules of correct/native.rs. The candidates of a generator come from
-- crates/data/src/runner.rs: from its cache, or from a child process whose output parse.rs
-- reads. crates/history-store keeps the commands that a host records, from which the daemon
-- suggests where a request brings no window.
--
-- Which file models which part:
--   Base             tests, lists, membership, stable sorting, orders and integers that all parts
--                    share
--   Text             `str` and `char`: a text is the list of its Unicode scalar values, and
--                    positions in it are byte offsets of its UTF-8 encoding (`from_offset`,
--                    `slice`, `is_char_boundary`). Text/Utf8 reads bytes
--   Spec             crates/core/src/types: the spec tree. A `Subcommand` holds the list of its
--                    nested subcommands, a mutual data type with `to_list`. The JSON of a
--                    suggestion is in Spec/Serde, its round trip in Spec/Fields and Spec/RoundTrip,
--                    keys that it does not know in Spec/Unknown
--   Tokenize         crates/core/src/tokenize.rs: `lex`, `unquote`, `clamp_cursor`, `tokenize`;
--                    proofs in Tokenize/Quoting, Tokenize/Lexing and Tokenize/Cursor
--   Parse            crates/core/src/parse.rs: the variables of the loop of `parse` are the
--                    record `Walk`, and `walk_token` is its body; look-ups in Parse/Lookup,
--                    proofs in Parse/Path, Parse/Descent, Parse/Inherited, Parse/Seen,
--                    Parse/Positional and Parse/Cursor
--   History          crates/core/src/history.rs and the entries of
--                    crates/protocol/src/history.rs; proofs in History/Dedupe, History/Best,
--                    History/Recent and History/Sound
--   HistoryStore     crates/history-store/src/lib.rs over a `Sqlite`; what SQLite documents of its
--                    statements is in HistoryStore/Table, what the store returns after any calls
--                    in HistoryStore/Replay, and with the daemon in HistoryStore/Suggested
--   Levenshtein      crates/core/src/correct/levenshtein.rs: the two rolling rows; the
--                    specification by edit scripts in Levenshtein/Edits, the proof in
--                    Levenshtein/Rows
--   Correct          crates/core/src/correct: the data in Correct/Types, token edits in
--                    Correct/Edits, native.rs in Correct/Native, resolver.rs in Correct/Resolver,
--                    mod.rs in Correct; proofs in Correct/Conditions, Correct/Near,
--                    Correct/Installed, Correct/Typo, Correct/Proposed, Correct/Dedup,
--                    Correct/Ranked and Correct/Errors
--   Rank             crates/core/src/rank.rs; proofs in Rank/Quality and Rank/Order
--   Complete         crates/core/src/complete.rs and `complete_line` of crates/core/src/lib.rs,
--                    with crates/core/src/fs_source.rs in Complete/Files; proofs in
--                    Complete/Valid and Complete/Entries
--   Cache            crates/data/src/cache.rs; what it promises is in Cache/Latest
--   Output           crates/data/src/parse.rs; proofs in Output/Split and Output/Lines
--   Runner           crates/data/src/runner.rs: the allow-list in Runner/Policy, the wait loop in
--                    Runner/Poll, `execute` and `run` in Runner. A call returns, with its result,
--                    the runner behind it and the list of what it did to processes. Proofs in
--                    Runner/Listed, Runner/Courses, Runner/Trusted, Runner/Ends, Runner/Warm and
--                    Runner/Capped
--   Protocol         crates/protocol/src/request.rs and response.rs
--   Daemon           crates/daemon/src/lib.rs, with `scan_id` in Daemon/Scan; load.rs in
--                    Daemon/Load, the loop of main.rs in Daemon/Stdin and its `main` in
--                    Daemon/Main; the id that a refused line has is specified in
--                    Daemon/Salvage; proofs in Daemon/Indexed, Daemon/Listed, Daemon/Answers,
--                    Daemon/Salvaged, Daemon/Lines, Daemon/Fuel, Daemon/Served, Daemon/DataFiles and
--                    Daemon/Loaded
--   Ffi              crates/ffi/src/lib.rs: the answer to a pointer in Ffi, the engine that it loads
--                    in Ffi/Load, the strings that it hands out and takes back in Ffi/Process;
--                    proofs in Ffi/Strings, Ffi/Process/Live, Ffi/Process/Owned and
--                    Ffi/Process/Loaded, and against the daemon in Ffi/Lines and Ffi/Agreement
--   Tests            the theorems at concrete inputs, and runs of the model
--
-- Bounds and fuel. Numbers are natural numbers; nothing in the modelled code comes near the end
-- of `usize`, and the saturating `u32` count of history.rs is kept at 2 ^ 32 - 1. The outer
-- loop of `lex` runs on the number of characters of the line as fuel, which suffices since each
-- round takes a character; the theorem on `lex` covers the whole line, so a round too few would
-- refute it. The wait loop of runner.rs runs on `poll_fuel`, the rounds that its time limit
-- holds and two more, and the loop of main.rs on fuel that a theorem bounds by the bytes of its
-- input. All other loops are structural recursions. Instants and durations are numbers of
-- nanoseconds.
--
-- Parameters. The regex crate is a `RegexEngine`, paths and directories are a `FileSystem`, of
-- which nothing is assumed; the arithmetic of `f64` is a `Float`, whose comparison is assumed to
-- be an order where a theorem says so. The file system of runner.rs is a `System`, with
-- the last instant that an `Instant` can hold: a call whose deadline is behind it panics, and, as
-- a call that does not return, has no result. The start of
-- a process is a function into a `Child`, which holds what the process will do, and serde_json is
-- a `Json`; a `CommandResolver` and a `GeneratorRunner` are what they are in the source, values
-- that the caller gives. Loading reads a `Disk`. The history store runs its statements on a
-- `Sqlite`, of which theorems assume, as `IsTable`, that they insert, delete and select as
-- SQLite documents it; the directories of $PATH are a `PathSystem`, which a theorem assumes to
-- stay as it is (`IsStable`). The address of a string that crates/ffi hands out is an argument.
-- A sort of the standard library is the stable insertion sort `sort_by`; a `BTreeSet` and a map
-- are lists; where the order of a set counts, as in the PATH of a child, the list is in order.
--
-- Not modelled: the derived serde formats, which are generated code; failures of the daemon's
-- input and output, and what it writes to its standard error; and what SQLite does with the
-- statements of the history store.
pub mod Base
pub mod Text
pub mod Spec
pub mod Tokenize
pub mod Parse
pub mod History
pub mod HistoryStore
pub mod Levenshtein
pub mod Correct
pub mod Rank
pub mod Complete
pub mod Cache
pub mod Output
pub mod Runner
pub mod Protocol
pub mod Daemon
pub mod Ffi
pub mod Tests
