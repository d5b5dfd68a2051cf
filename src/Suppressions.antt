-- ===== src/Suppressions.antt =====
-- The suppression specifications of `src/abg-comparison.cc`: which diff nodes each leaves out of the
-- report, and how they are read from the sections of an INI file.
pub mod Criteria
pub mod Parameters
pub mod Types
pub mod Functions
pub mod Variables
pub mod Reading
pub mod RoundTrip
