-- ===== src/Symbols.antt =====
-- `elf_symbol` of `include/abg-ir.h` and `src/abg-ir.cc`: the symbols, their ids, and the chains of
-- their aliases.
pub mod Symbol
pub mod Kinds
pub mod Ids
pub mod Aliases
pub mod Rings
pub mod Walks
