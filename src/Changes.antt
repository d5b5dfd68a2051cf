-- ===== src/Changes.antt =====
-- The lookup tables of `src/abg-comparison.cc` that an edit script is turned into: what is deleted,
-- inserted and changed, by name.
pub mod Maps
pub mod Loops
pub mod Tables
pub mod Agreement
pub mod Paths
pub mod Populated
pub mod Enums
pub mod Decls
pub mod Corpus
pub mod Pruned
pub mod CorpusLaws
pub mod SymbolTables
pub mod Reports
