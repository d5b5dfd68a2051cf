-- ===== src/Diff/Passes.antt =====
-- The passes of `src/abg-comparison.cc` over a diff node: each ends, and changes only the categories
-- that it is for.
pub mod Adding
pub mod Propagation
pub mod Suppression
pub mod Redundancy
pub mod Origin
pub mod Found
pub mod Filters
pub mod Clearing
