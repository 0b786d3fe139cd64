-- ===== src/Tests.antt =====
-- The theorems at concrete inputs, and runs of the model on inputs of the repository's own tests.
mod Tokenize
mod Parse
mod History
mod Levenshtein
mod Correct
mod Rank
mod Cache
mod Complete
mod Output
mod Runner
mod Daemon
mod Ffi
mod Spec
mod HistoryStore
mod Resolver
