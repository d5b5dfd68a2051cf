-- ===== src/Tests.antt =====
-- Runs of the code at fixed inputs, and each property applied at an input that meets its conditions.
mod Ini
mod Diff
mod Symbols
mod Xml
mod FileType
mod EditScripts
mod Changes
mod Suppressions
mod Statistics
mod Exports
