-- ===== src/Ini.antt =====
-- `src/abg-ini.cc`: the INI reader and writer.
pub mod Stream
pub mod Chars
pub mod Reader
pub mod Sections
pub mod Writer
pub mod Ensures
pub mod Total
pub mod RoundTrip
pub mod Escapes
