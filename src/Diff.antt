-- ===== src/Diff.antt =====
-- `src/abg-comparison.cc` and `src/abg-comp-filter.cc`: the graph of diff nodes, its walks, and the
-- categories that decide what is reported.
pub mod Category
pub mod Graph
pub mod Traverse
pub mod Visitors
pub mod Grows
pub mod Reported
pub mod Passes
