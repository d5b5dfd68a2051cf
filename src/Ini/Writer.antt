-- ===== src/Ini/Writer.antt =====
-- The writer of `src/abg-ini.cc`, on an output stream that takes every byte.
use cyglibabigail.Base.{ℕ, List, [], ◌∷◌, ◌++◌}
use cyglibabigail.Ini.Sections.{Property, Section}

-- Each writer is given the text behind its own, so that the text of a file is built once.
unfoldable pub write_property : Property → List ℕ → List ℕ
write_property prop out = prop.name ++ (b' ' ∷ b'=' ∷ b' ' ∷ (prop.value ++ out))

unfoldable pub write_properties : List Property → List ℕ → List ℕ
unfolding write_property
write_properties [] out = out
write_properties (p ∷ ps) out = b' ' ∷ b' ' ∷ write_property p (b'\n' ∷ write_properties ps out)

unfoldable pub write_section : Section → List ℕ → List ℕ
write_section s out = b'[' ∷ (s.name ++ (b']' ∷ b'\n' ∷ write_properties s.properties out))

unfoldable pub write_sections : List Section → List ℕ
write_sections [] = []
write_sections (s ∷ ss) = write_section s (b'\n' ∷ write_sections ss)
