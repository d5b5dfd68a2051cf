-- ===== src/Exports.antt =====
-- The declarations that a corpus exports, of `src/abg-corpus.cc`.
pub mod Builder
pub mod Kept
pub mod Built
