-- ===== src/Ini/Chars.antt =====
-- The character classes of `read_context` in `src/abg-ini.cc`.
use cyglibabigail.Base.{ℕ, Bool, not, ◌||◌, ◌==◌}

abbrev pub char_is_comment_start : ℕ → Bool
char_is_comment_start b = b == b';' || b == b'#'

abbrev pub char_is_white_space : ℕ → Bool
char_is_white_space b = b == b' ' || b == b'\t' || b == b'\n'

abbrev pub char_is_delimiter : ℕ → Bool
char_is_delimiter b =
    b == b'[' || b == b']' || b == b'=' || char_is_white_space b || char_is_comment_start b

abbrev pub char_is_property_value_char : ℕ → Bool
char_is_property_value_char b =
    not (b == b'[' || b == b']' || b == b'=' || char_is_comment_start b || b == b'\n')

abbrev pub char_is_section_name_char : ℕ → Bool
char_is_section_name_char b = not (b == b'[' || b == b']' || b == b'\n' || char_is_comment_start b)

abbrev pub char_is_property_name_char : ℕ → Bool
char_is_property_name_char b = not (char_is_delimiter b)
