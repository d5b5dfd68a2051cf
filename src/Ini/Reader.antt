-- ===== src/Ini/Reader.antt =====
-- `read_context` of `src/abg-ini.cc`, up to the skipping of blanks and comments.
use cyglibabigail.Base.{
  Outcome, returned, aborted, out_of_fuel, ◌>>=◌, ℕ, zero, suc, ◌+◌, Bool, true, false, not, ◌||◌,
  ◌&&◌, ◌==◌, if◌then◌else◌,
}
use cyglibabigail.Ini.Stream.{Reader, good, peek, get}
use cyglibabigail.Ini.Chars.{char_is_comment_start, char_is_white_space}

-- What `read_next_char` leaves behind: whether it read, its argument `c`, and the stream.
pub record Got : Type 0 where
  pub is_ok : Bool
  pub c : ℕ
  pub reader : Reader

-- The end of `read_next_char`: `b` is the last byte read, and `c` the character to return.
count_char : ℕ → ℕ → Reader → Got
count_char b c r =
    let line = if r.line == 0 then 1 else r.line in
    record {
      is_ok = true;
      c = c;
      reader =
          if b == b'\n'
          then record r { line = line + 1; column = 0 }
          else record r { line = line; column = r.column + 1 };
    }

-- `++cur_column_`
abbrev next_column : Reader → Reader
next_column r = record r { column = r.column + 1 }

-- The byte behind a backslash and the end of its line. Nothing is written to `c`.
continue_line : ℕ → ℕ × Reader → Got
continue_line c (b, r) =
    if not (good r)
    then record { is_ok = false; c = c; reader = r }
    else count_char b c (next_column r)

-- The byte behind a backslash.
escaped_char : ℕ → ℕ × Reader → Got
escaped_char c (b, r) =
    if not (good r)
    then record { is_ok = false; c = c; reader = r }
    else if b == b'0' || b == b'a' || b == b'b' || b == b'r'
    then count_char b b' ' (next_column r)
    else if b == b't'
    then count_char b b'\t' (next_column r)
    else if b == b'\n'
    then continue_line c (get (next_column r))
    else count_char b b (next_column r)

unescaped_char : ℕ → ℕ × Reader → Got
unescaped_char c (b, r) =
    if not (good r)
    then record { is_ok = false; c = c; reader = r }
    else if b == b'\\'
    then escaped_char c (get r)
    else count_char b b r

unfoldable pub read_next_char : ℕ → Reader → Got
unfolding unescaped_char escaped_char continue_line count_char
read_next_char c r = unescaped_char c (get r)

-- `assert(read_next_char(c))`
abbrev pub check_read : Got → Outcome Got
check_read g = if g.is_ok then returned g else aborted

-- The loop of `skip_line`; the result holds the last value of `c`.
unfoldable pub skip_line_loop : ℕ → Got → Outcome Got
skip_line_loop zero g = out_of_fuel
skip_line_loop (suc n) g =
    let rest = skip_line_loop n (read_next_char g.c g.reader) in
    if not g.is_ok || g.c == b'\n' then returned g else rest

unfoldable pub skip_line : ℕ → Reader → Outcome (Bool × Reader)
unfolding skip_line_loop
skip_line n r = do
  g ← skip_line_loop n (read_next_char 0 r)
  returned (g.c == b'\n' || g.reader.eof, g.reader)

-- The result of the three `skip_` methods.
abbrev pub good_or_eof : Reader → Bool × Reader
good_or_eof r = (good r || r.eof, r)

unfoldable pub skip_white_spaces : ℕ → Reader → Outcome (Bool × Reader)
skip_white_spaces zero r = out_of_fuel
skip_white_spaces (suc n) r =
    let (c, r') = peek r in
    if good r' && char_is_white_space c
    then (do g ← check_read (read_next_char c r'); skip_white_spaces n g.reader)
    else returned (good_or_eof r')

unfoldable pub skip_comments : ℕ → Reader → Outcome (Bool × Reader)
skip_comments zero r = out_of_fuel
skip_comments (suc n) r =
    let (c, r') = peek r in
    if good r' && char_is_comment_start c
    then (do (_, r'') ← skip_line n r'; skip_comments n r'')
    else returned (good_or_eof r')

-- `while (in_.good())`, on the byte that `peek` returns
unfoldable pub skip_white_spaces_or_comments : ℕ → Reader → Outcome (Bool × Reader)
skip_white_spaces_or_comments zero r = out_of_fuel
skip_white_spaces_or_comments (suc n) r =
    let (b, r') = peek r in
    let after_spaces = (do
      (_, r'') ← skip_white_spaces n r'
      skip_white_spaces_or_comments n r'') in
    let after_comments = (do (_, r'') ← skip_comments n r'; skip_white_spaces_or_comments n r'') in
    if not (good r)
    then returned (good_or_eof r)
    else if char_is_white_space b
    then after_spaces
    else if char_is_comment_start b
    then after_comments
    else returned (good_or_eof r')
