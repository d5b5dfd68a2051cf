-- ===== src/Tests/Xml.antt =====
-- Runs of the escaping of XML strings.
use cyglibabigail.Base.{ℕ, ◌≤◌, false, List, ◌≡◌, refl, arith, codes, length, returned}
use cyglibabigail.Xml.{
  escaped_char, escape_xml_string, unescape_xml_string, has_char,
  unescape_xml_string-escape_xml_string, has_char-escape_xml_string, unescape_xml_string-returns,
}

abbrev operator_name : List ℕ
operator_name = codes "a<b> & 'c'"

escaped_run : escape_xml_string operator_name ≡ codes "a&lt;b&gt; &amp; &apos;c&apos;"
unfolding escape_xml_string escaped_char
escaped_run = refl

unescape_xml_string-escape_xml_string_example :
    unescape_xml_string 11 (escape_xml_string operator_name) ≡ returned operator_name
unescape_xml_string-escape_xml_string_example =
    unescape_xml_string-escape_xml_string 11 operator_name (omega arith)

has_char-escape_xml_string_example : has_char 60 (escape_xml_string operator_name) ≡ false
has_char-escape_xml_string_example = has_char-escape_xml_string 60 operator_name refl

unescape_xml_string-returns_example :
    (ds : List ℕ) × (unescape_xml_string 11 operator_name ≡ returned ds)
    × (length ds ≤ length operator_name)
unescape_xml_string-returns_example = unescape_xml_string-returns 11 operator_name (omega arith)
