-- ===== src/Tests/Ini.antt =====
-- Runs of the INI reader and writer.
use Prim.Native.Char.{code}
use Prim.Native.String.{String}
use cyglibabigail.Base.{returned, aborted, Ensures, ℕ, true, List, [], ◌∷◌, ◌≡◌, refl, some, arith}
use cyglibabigail.Ini.Reader.{
  read_next_char, skip_line_loop, skip_line, skip_white_spaces, skip_comments,
  skip_white_spaces_or_comments,
}
use cyglibabigail.Ini.Sections.{
  Property, Section, read_while, read_text, read_property_name, read_property_value,
  read_section_text, read_section_name, read_named_value, read_equal_sign, read_property,
  read_properties, section_of, read_section_body, open_bracket, read_section, read_sections_loop,
  read_sections,
}
use cyglibabigail.Ini.Ensures.{cut_escape}
use cyglibabigail.Ini.Total.Sections.{read_sections-Ensures}
use cyglibabigail.Ini.RoundTrip.{at, Leaves}
use cyglibabigail.Ini.Escapes.{read_property_value_continuation, read_property_value_cut}
use cyglibabigail.Ini.Writer.{write_properties, write_section, write_sections}

abbrev codes : String → List ℕ
codes String.[] = []
codes (String.◌∷◌ c s) = code c ∷ codes s

abbrev prop : String → String → Property
prop n v = record { name = codes n; value = codes v }

abbrev suppressions : List Section
suppressions =
    record {
      name = codes "suppress_type";
      properties = prop "name" "S0" ∷ prop "type_kind" "class" ∷ [];
    }
    ∷ record { name = codes "suppress_function"; properties = prop "name" "foo bar" ∷ [] }
    ∷ []

written : List ℕ
unfolding write_sections write_section write_properties
written = write_sections suppressions

reread : read_sections 200 written ≡ returned (true, suppressions)
unfolding written read_sections read_sections_loop read_section open_bracket read_section_body
    section_of read_section_text read_text read_equal_sign read_named_value read_properties
    read_property read_property_name read_property_value read_section_name read_while read_next_char
    skip_line_loop skip_line skip_white_spaces skip_comments skip_white_spaces_or_comments
reread = refl

-- A file that a backslash ends.
trailing : List ℕ
trailing = codes "[s]\nname = a\\"

trailing_aborts : read_sections 200 trailing ≡ aborted
unfolding trailing read_sections read_sections_loop read_section open_bracket read_section_body
    section_of read_section_text read_text read_equal_sign read_named_value read_properties
    read_property read_property_name read_property_value read_section_name read_while read_next_char
    skip_line_loop skip_line skip_white_spaces skip_comments skip_white_spaces_or_comments
trailing_aborts = refl

read_sections-Ensures_example :
    Ensures (cut_escape trailing ≡ true) (λ q. q.0 ≡ true) (read_sections 200 trailing)
read_sections-Ensures_example = read_sections-Ensures trailing 200 (unfold trailing in omega arith)

-- `ab\`, a newline, `cd`: the value read is `abbd`.
read_property_value_continuation_example :
    Leaves
      (some (codes "abbd"))
      (at (codes "\n"))
      (read_property_value 20 (at (codes "ab\\\ncd\n") 1 0))
read_property_value_continuation_example =
    read_property_value_continuation b'a' (b'b' ∷ []) (ground arith) b'c' (b'd' ∷ []) b'\n' [] 20 1
      0 (omega arith) (ground arith) refl

read_property_value_cut_example : read_property_value 20 (at (codes "ab\\") 1 0) ≡ aborted
read_property_value_cut_example =
    read_property_value_cut b'a' (b'b' ∷ []) (ground arith) 20 1 0 (omega arith)
