-- ===== src/Ini/Ensures.antt =====
-- What is known of a call of the INI reader that returns or aborts, and never runs out of fuel.
use cyglibabigail.Base.{
  ℕ, ◌≤◌, ◌<◌, Bool, true, false, ◌&&◌, ◌||◌, List, [], ◌∷◌, ◌≡◌, ◌==◌, arith, length,
}
use cyglibabigail.Ini.Stream.{Reader, good}
use cyglibabigail.Ini.Reader.{Got, read_next_char}

-- The bytes end in a backslash, or in a backslash and a newline: an escape that the end of the
-- stream cuts off.
abbrev pub cut_escape : List ℕ → Bool
cut_escape [] = false
cut_escape (b ∷ []) = b == b'\\'
cut_escape (b ∷ c ∷ []) = (b == b'\\' && c == b'\n') || c == b'\\'
cut_escape (b ∷ c ∷ d ∷ bytes) = cut_escape (c ∷ d ∷ bytes)

pub cut_escape-cons :
    (b : ℕ) (bytes : List ℕ) → cut_escape bytes ≡ true → cut_escape (b ∷ bytes) ≡ true
cut_escape-cons b [] h = ground arith
cut_escape-cons b (c ∷ []) h = ground arith
cut_escape-cons b (c ∷ d ∷ bytes) h = h

-- One call of `read_next_char` on a good stream with a byte left.
pub record Reads (r : Reader) (g : Got) : Type 0 where
  pub shorter : g.is_ok ≡ true → length g.reader.rest < length r.rest
  pub no_longer : length g.reader.rest ≤ length r.rest
  pub consumes : good r ≡ true → 0 < length r.rest → length g.reader.rest < length r.rest
  pub cut : g.is_ok ≡ false → 0 < length r.rest → good r ≡ true → cut_escape r.rest ≡ true
  pub suffix : cut_escape g.reader.rest ≡ true → cut_escape r.rest ≡ true
  pub fails : (r.fail ≡ true → r.eof ≡ true) → g.reader.fail ≡ true → g.reader.eof ≡ true

reads :
    (bytes : List ℕ) (e f : Bool) (l k c : ℕ)
    → let r : Reader = record { rest = bytes; eof = e; fail = f; line = l; column = k } in
      Reads r (read_next_char c r)
unfolding read_next_char
reads [] e f l k c = ground arith
reads (x ∷ []) e f l k c = ground arith
reads (x ∷ y ∷ []) e f l k c = ground arith
reads (x ∷ y ∷ z ∷ bytes) e f l k c =
    ground (arith, cut_escape-cons y (z ∷ bytes), cut_escape-cons z bytes)

pub read_next_char-Reads : (r : Reader) (c : ℕ) → Reads r (read_next_char c r)
read_next_char-Reads r c = reads r.rest r.eof r.fail r.line r.column c
