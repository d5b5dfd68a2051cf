-- ===== src/EditScripts.antt =====
-- `include/abg-diff-utils.h` and `src/abg-diff-utils.cc`: the shortest edit script of two sequences,
-- after Myers.
pub mod Points
pub mod Scripts
pub mod Paths
pub mod Snakes
pub mod Compute
pub mod Distance
pub mod Mirror
pub mod Follow
pub mod Furthest
pub mod Tables
pub mod LandForward
pub mod Ends
pub mod LandReverse
pub mod EndsReverse
pub mod Sweep
pub mod SesLen
pub mod Meet
pub mod Overlap
pub mod Middle
pub mod ForwardPaths
pub mod ReversePaths
pub mod MiddleSnake
pub mod Edits
pub mod DiffCases
pub mod SnakeScripts
pub mod DiffLaws
pub mod Strings
pub mod Bounds
pub mod BoundsReverse
