-- ===== src/Statistics.antt =====
-- The statistics of a `corpus_diff` of `src/abg-comparison.cc`, and the passes that are run before the
-- changes that a report leaves out are counted.
pub mod Stats
pub mod Counted
