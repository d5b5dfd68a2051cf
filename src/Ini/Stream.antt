-- ===== src/Ini/Stream.antt =====
-- The input stream that `src/abg-ini.cc` reads from, with the two counters of its `read_context`.
-- A byte is a number below 256. `std::istream` is read through `good`, `peek` and `get` alone.
use cyglibabigail.Base.{ℕ, Bool, true, false, not, ◌&&◌, List, [], ◌∷◌}

-- The members of `read_context`: the stream's unread bytes and its two error bits, and the
-- position `cur_line_`, `cur_column_`.
pub record Reader : Type 0 where
  pub rest : List ℕ
  pub eof : Bool
  pub fail : Bool
  pub line : ℕ
  pub column : ℕ

-- `std::char_traits<char>::eof()`, which is no byte.
abbrev pub eof_value : ℕ
eof_value = 256

-- `in_.good()`
abbrev pub good : Reader → Bool
good r = not r.eof && not r.fail

-- `in_.peek()`: on a stream that is not good it sets `failbit`, at the end `eofbit`.
abbrev peek_in : Bool → List ℕ → Reader → ℕ × Reader
peek_in false bytes r = (eof_value, record r { fail = true })
peek_in true [] r = (eof_value, record r { eof = true })
peek_in true (b ∷ bytes) r = (b, r)

abbrev pub peek : Reader → ℕ × Reader
peek r = peek_in (good r) r.rest r

-- `in_.get()`: the same, and at the end it sets both bits.
abbrev get_in : Bool → List ℕ → Reader → ℕ × Reader
get_in false bytes r = (eof_value, record r { fail = true })
get_in true [] r = (eof_value, record r { eof = true; fail = true })
get_in true (b ∷ bytes) r = (b, record r { rest = bytes })

abbrev pub get : Reader → ℕ × Reader
get r = get_in (good r) r.rest r

-- `read_context(in)`, on a fresh stream over these bytes.
abbrev pub open_stream : List ℕ → Reader
open_stream bytes = record { rest = bytes; eof = false; fail = false; line = 0; column = 0 }
