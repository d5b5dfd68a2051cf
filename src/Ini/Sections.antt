-- ===== src/Ini/Sections.antt =====
-- `read_context` of `src/abg-ini.cc` from `read_property_name` on, and `read_sections`.
use cyglibabigail.Base.{
  Outcome, returned, aborted, out_of_fuel, ◌>>=◌, ℕ, zero, suc, Bool, true, false, not, ◌||◌, ◌&&◌,
  List, [], ◌∷◌, ◌++◌, Option, none, some, ◌==◌, if◌then◌else◌,
}
use cyglibabigail.Ini.Stream.{Reader, good, peek, open_stream}
use cyglibabigail.Ini.Chars.{
  char_is_delimiter, char_is_property_value_char, char_is_section_name_char,
  char_is_property_name_char,
}
use cyglibabigail.Ini.Reader.{
  Got, read_next_char, check_read, skip_white_spaces, skip_white_spaces_or_comments,
}

-- `config::property`, a pair of strings
pub record Property : Type 0 where
  pub name : List ℕ
  pub value : List ℕ

-- `config::section`
pub record Section : Type 0 where
  pub name : List ℕ
  pub properties : List Property

-- The loop of `read_property_name`, `read_property_value` and `read_section_name`: while the next
-- byte passes the test `p`, read a character and append it to the text. It returns the text. The
-- first of the three keeps the byte that it peeks in the variable `c` that it reads to
-- (`peeks_to_c`), the other two in a variable of its own.
unfoldable pub read_while : (ℕ → Bool) → Bool → ℕ → List ℕ → ℕ → Reader → Outcome (List ℕ × Reader)
read_while p peeks_to_c zero text c r = out_of_fuel
read_while p peeks_to_c (suc n) text c r =
    let (b, r') = peek r in
    let old = if peeks_to_c then b else c in
    if good r' && p b
    then (do
      g ← check_read (read_next_char old r')
      read_while p peeks_to_c n (text ++ g.c ∷ []) g.c g.reader)
    else returned (text, r')

-- The first character, then the loop.
unfoldable pub read_text : (ℕ → Bool) → Bool → ℕ → ℕ → Reader → Outcome (Option (List ℕ) × Reader)
read_text p peeks_to_c n c r = do
  g ← check_read (read_next_char c r)
  (text, r') ← read_while p peeks_to_c n (g.c ∷ []) g.c g.reader
  returned (some text, r')

-- A result `none` stands for `false`, and `some` holds the text that the call appended to its
-- argument, which is empty in each call.
unfoldable pub read_property_name : ℕ → Reader → Outcome (Option (List ℕ) × Reader)
read_property_name n r =
    let (c, r') = peek r in
    if not (good r') || not (char_is_property_name_char c)
    then returned (none, r')
    else read_text char_is_property_name_char true n c r'

unfoldable pub read_property_value : ℕ → Reader → Outcome (Option (List ℕ) × Reader)
read_property_value n r =
    let (b, r') = peek r in
    if not (good r')
    then returned (none, r')
    else if char_is_delimiter b
    then returned (some [], r')
    else read_text char_is_property_value_char false n 0 r'

-- `assert(read_next_char(c) || char_is_section_name_char(b))` cannot fail here: its second part
-- was tested above it.
unfoldable pub read_section_text : ℕ → Got → Outcome (Option (List ℕ) × Reader)
read_section_text n g = do
  (text, r') ← read_while char_is_section_name_char false n (g.c ∷ []) g.c g.reader
  returned (some text, r')

unfoldable pub read_section_name : ℕ → Reader → Outcome (Option (List ℕ) × Reader)
read_section_name n r =
    let (b, r') = peek r in
    if not (good r') || not (char_is_section_name_char b)
    then returned (none, r')
    else read_section_text n (read_next_char 0 r')

-- A null `property_sptr` is `none`. The parts behind the name, and behind the `=`:
unfoldable pub read_named_value : ℕ → List ℕ → Bool × Reader → Outcome (Option Property × Reader)
read_named_value n name (_, r) = if not (good r) then returned (none, r) else (do
  (value, r') ← read_property_value n r
  elim value [
    | none ↦ returned (none, r')
    | some text ↦ returned (some (record { name = name; value = text }), r')
  ])

unfoldable pub read_equal_sign : ℕ → List ℕ → Bool × Reader → Outcome (Option Property × Reader)
read_equal_sign n name (_, r) =
    let g = read_next_char 0 r in
    if not (good r)
    then returned (none, r)
    else if not g.is_ok || not (g.c == b'=')
    then returned (none, g.reader)
    else (do after ← skip_white_spaces n g.reader; read_named_value n name after)

unfoldable pub read_property : ℕ → Reader → Outcome (Option Property × Reader)
read_property n r = do
  (name, r') ← read_property_name n r
  elim name [
    | none ↦ returned (none, r')
    | some text ↦ (do after ← skip_white_spaces n r'; read_equal_sign n text after)
  ]

-- The loop of `read_section` over its properties.
unfoldable pub read_properties : ℕ → List Property → Reader → Outcome (List Property × Reader)
read_properties zero properties r = out_of_fuel
read_properties (suc n) properties r = do
  (prop, r') ← read_property n r
  elim prop [
    | none ↦ returned (properties, r')
    | some p ↦ (do
      (_, r'') ← skip_white_spaces_or_comments n r'
      read_properties n (properties ++ p ∷ []) r'')
  ]

-- A section with no property is dropped.
unfoldable pub section_of : List ℕ → List Property × Reader → Option Section × Reader
section_of name ([], r) = (none, r)
section_of name (p ∷ ps, r) = (some (record { name = name; properties = p ∷ ps }), r)

-- Behind the section's name: blanks, `]`, and the properties.
unfoldable pub read_section_body :
    ℕ → ℕ → List ℕ → Bool × Reader → Outcome (Option Section × Reader)
read_section_body n c name (blank, r) =
    let g = read_next_char c r in
    if not blank
    then returned (none, r)
    else if not g.is_ok || not (g.c == b']')
    then returned (none, g.reader)
    else (do
      (more, r') ← skip_white_spaces_or_comments n g.reader
      if not more
          then returned (none, r')
          else (do ps ← read_properties n [] r'; returned (section_of name ps)))

-- The `[`, if there is one: `assert(read_next_char(c) && c == '[')`.
-- It returns the `c` of `read_section`, which is 0 at first, and the stream.
unfoldable pub open_bracket : ℕ → Reader → Outcome (ℕ × Reader)
open_bracket b r =
    let g = read_next_char 0 r in
    if b == b'['
    then (if g.is_ok && g.c == b'[' then returned (g.c, g.reader) else aborted)
    else returned (0, r)

unfoldable pub read_section : ℕ → Reader → Outcome (Option Section × Reader)
read_section n r =
    let (b, r') = peek r in
    if not (good r') then returned (none, r') else (do
      (c, opened) ← open_bracket b r'
      (name, r'') ← read_section_name n opened
      elim name [
        | none ↦ returned (none, r'')
        | some text ↦ (do after ← skip_white_spaces n r''; read_section_body n c text after)
      ])

-- The loop of `read_sections`.
unfoldable pub read_sections_loop : ℕ → List Section → Reader → Outcome (List Section × Reader)
read_sections_loop zero sections r = out_of_fuel
read_sections_loop (suc n) sections r = if not (good r) then returned (sections, r) else (do
  (_, r') ← skip_white_spaces_or_comments n r
  (section, r'') ← read_section n r'
  elim section [
    | none ↦ returned (sections, r'')
    | some s ↦ read_sections_loop n (sections ++ s ∷ []) r''
  ])

-- The result and the sections of `read_sections(input, sections)`, on a stream over these bytes.
unfoldable pub read_sections : ℕ → List ℕ → Outcome (Bool × List Section)
read_sections n bytes = do
  (sections, r) ← read_sections_loop n [] (open_stream bytes)
  returned (good r || r.eof, sections)
