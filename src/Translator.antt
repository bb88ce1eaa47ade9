-- ===== src/Translator.antt =====
-- cmd/translator/main.go: the consumer of the Tetragon stream that mints SETs and posts them.
pub mod Build
pub mod Post
pub mod Loop
pub mod Main
pub mod Log
