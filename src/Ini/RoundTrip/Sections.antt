-- ===== src/Ini/RoundTrip/Sections.antt =====
-- The INI reader on written sections, and the round trip.
use cyglibabigail.Base.{◌>>=◌, ℕ, true, List, [], ◌∷◌, ◌≢◌}
use cyglibabigail.Ini.Stream.{Reader}
use cyglibabigail.Ini.Chars.{char_is_section_name_char}
use cyglibabigail.Ini.Sections.{Property, Section}
use cyglibabigail.Ini.Writer.{write_sections}
use cyglibabigail.Ini.RoundTrip.{at}
use cyglibabigail.Ini.RoundTrip.Names.{Text, IsWritable}

abbrev pub AllWritable : List Property → Type 0
AllWritable [] = Unit {0}
AllWritable (p ∷ ps) = IsWritable p × AllWritable ps

-- The sections that the format can hold: a name, and at least one property.
abbrev pub SectionText : Section → Type 0
SectionText s =
    Text char_is_section_name_char s.name × AllWritable s.properties × (s.properties ≢ [])

abbrev pub AllSectionText : List Section → Type 0
AllSectionText [] = Unit {0}
AllSectionText (s ∷ ss) = SectionText s × AllSectionText ss

-- A good reader that has failed to read past the end.
abbrev past_end : ℕ → ℕ → Reader
past_end l k = record { rest = []; eof = true; fail = true; line = l; column = k }

-- The reader in front of written sections, and past the end if there are none.
front : List Section → ℕ → ℕ → Reader
front [] = past_end
front (s ∷ ss) = at (write_sections (s ∷ ss))
