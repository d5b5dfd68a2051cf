-- ===== src/Ini/RoundTrip.antt =====
-- The steps of the INI reader on text that the writer made: no backslash, no comment.
pub mod Names
pub mod Sections
use cyglibabigail.Base.{
  Outcome, returned, aborted, ◌>>=◌, ℕ, zero, suc, ◌+◌, ◌-◌, ◌≤◌, ◌<◌, Bool, true, false, not, ◌&&◌,
  ◌||◌, List, [], ◌∷◌, ◌++◌, ◌≡◌, ◌≢◌, refl, Option, none, some, ◌==◌, arith, length, ◌⊎◌, inl, inr,
  Bool-cases, if◌then◌else◌, append_assoc, append-nil,
}
use cyglibabigail.Ini.Stream.{Reader, good, peek, open_stream}
use cyglibabigail.Ini.Chars.{char_is_white_space, char_is_comment_start}
use cyglibabigail.Ini.Reader.{Got, read_next_char, skip_white_spaces, skip_white_spaces_or_comments}
use cyglibabigail.Ini.Sections.{read_while}

-- A good reader in front of these bytes, at some line and column.
abbrev pub at : List ℕ → ℕ → ℕ → Reader
at bytes l k = record { rest = bytes; eof = false; fail = false; line = l; column = k }

-- The same reader when `peek` has met its end.
abbrev pub at_end : ℕ → ℕ → Reader
at_end l k = record { rest = []; eof = true; fail = false; line = l; column = k }

-- The call returns `v`, and leaves the reader that `s` gives at some line and column.
pub data Leaves {A : Type 0} (v : A) (s : ℕ → ℕ → Reader) : Outcome (A × Reader) → Type 0 where
  leaves : (l k : ℕ) → Leaves v s (returned (v, s l k))

module _ {A : Type 0} {v : A} {s : ℕ → ℕ → Reader} where
  pub Leaves-bind :
      {B : Type 0} {w : B} {t : ℕ → ℕ → Reader} {o : Outcome (A × Reader)}
      (f : A × Reader → Outcome (B × Reader))
      → Leaves v s o
      → ((l k : ℕ) → Leaves w t (f (v, s l k)))
      → Leaves w t (o >>= f)
  Leaves-bind f (leaves l k) h = h l k

  pub Leaves-eq : {o : Outcome (A × Reader)} → Leaves v s o → (l k : ℕ) × (o ≡ returned (v, s l k))
  Leaves-eq (leaves l k) = (l, k, refl)

abbrev pub All : (ℕ → Type 0) → List ℕ → Type 0
All P [] = Unit {0}
All P (x ∷ xs) = P x × All P xs

-- The bytes that a test accepts and that start no escape.
abbrev pub Plain : (ℕ → Bool) → ℕ → Type 0
Plain p b = (p b ≡ true) × (b ≢ b'\\')

-- A byte that starts no escape is read as it stands.
pub read_at :
    (b c : ℕ) (rest : List ℕ) (l k : ℕ)
    → b ≢ b'\\'
    → (l' k' : ℕ) × (read_next_char c (at (b ∷ rest) l k)
        ≡ record { is_ok = true; c = b; reader = at rest l' k' })
unfolding read_next_char
read_at b c rest l k h = elim (Bool-cases (b == b'\n')) [
  | inl newline ↦ ((if l == 0 then 1 else l) + 1, 0, ground arith)
  | inr other ↦ (if l == 0 then 1 else l, k + 1, ground arith)
]

pub read_while-at :
    (p : ℕ → Bool) (keep : Bool) (text done : List ℕ) (n c x : ℕ) (rest : List ℕ) (l k : ℕ)
    → length text < n
    → All (Plain p) text
    → p x ≡ false
    → Leaves
        (done ++ text)
        (at (x ∷ rest))
        (read_while p keep n done c (at (text ++ (x ∷ rest)) l k))
unfolding read_while
read_while-at p keep text done zero c x rest l k h a stop = absurd (omega arith)
read_while-at p keep [] done (suc n) c x rest l k h a stop = rw stop (rw append-nil (leaves l k))
read_while-at p keep (b ∷ text) done (suc n) c x rest l k h a stop =
    let old = if keep then b else c in
    let (l', k', e) = read_at b old (text ++ (x ∷ rest)) l k a.0.1 in
    rw (a.0.0, e)
      (rw (append_assoc done (b ∷ []) text) at
        (read_while-at p keep text (done ++ b ∷ []) n b x rest l' k' (omega arith) a.1 stop))

-- Blanks are skipped up to a byte that is none, or to the end of the stream.
pub skip_white_spaces-at :
    (blanks : List ℕ) (n x : ℕ) (rest : List ℕ) (l k : ℕ)
    → length blanks < n
    → All (Plain char_is_white_space) blanks
    → char_is_white_space x ≡ false
    → Leaves true (at (x ∷ rest)) (skip_white_spaces n (at (blanks ++ (x ∷ rest)) l k))
unfolding skip_white_spaces
skip_white_spaces-at blanks zero x rest l k h a stop = absurd (omega arith)
skip_white_spaces-at [] (suc n) x rest l k h a stop = rw stop (leaves l k)
skip_white_spaces-at (b ∷ blanks) (suc n) x rest l k h a stop =
    let (l', k', e) = read_at b b (blanks ++ (x ∷ rest)) l k a.0.1 in
    rw (a.0.0, e) (skip_white_spaces-at blanks n x rest l' k' (omega arith) a.1 stop)

skip_white_spaces_end :
    (blanks : List ℕ) (n l k : ℕ)
    → length blanks < n
    → All (Plain char_is_white_space) blanks
    → Leaves true at_end (skip_white_spaces n (at blanks l k))
unfolding skip_white_spaces
skip_white_spaces_end blanks zero l k h a = absurd (omega arith)
skip_white_spaces_end [] (suc n) l k h a = leaves l k
skip_white_spaces_end (b ∷ blanks) (suc n) l k h a =
    let (l', k', e) = read_at b b blanks l k a.0.1 in
    rw (a.0.0, e) (skip_white_spaces_end blanks n l' k' (omega arith) a.1)

-- One call of `skip_white_spaces_or_comments` skips the blanks before a byte that is neither a
-- blank nor the start of a comment.
pub skip_blanks_at :
    (blanks : List ℕ) (n x : ℕ) (rest : List ℕ) (l k : ℕ)
    → length blanks + 1 < n
    → All (Plain char_is_white_space) blanks
    → char_is_white_space x ≡ false
    → char_is_comment_start x ≡ false
    → Leaves true (at (x ∷ rest)) (skip_white_spaces_or_comments n (at (blanks ++ (x ∷ rest)) l k))
unfolding skip_white_spaces_or_comments
skip_blanks_at blanks zero x rest l k h a p q = absurd (omega arith)
skip_blanks_at [] (suc n) x rest l k h a p q = rw (p, q) (leaves l k)
skip_blanks_at (b ∷ blanks) (suc zero) x rest l k h a p q = absurd (omega arith)
skip_blanks_at (b ∷ blanks) (suc (suc n)) x rest l k h a p q = rw (a.0.0) (
    Leaves-bind _ (skip_white_spaces-at (b ∷ blanks) (suc n) x rest l k (omega arith) a p)
      (λ l' k'. rw (p, q) (leaves l' k')))

pub skip_blanks_end :
    (blanks : List ℕ) (n l k : ℕ)
    → length blanks + 1 < n
    → blanks ≢ []
    → All (Plain char_is_white_space) blanks
    → Leaves true at_end (skip_white_spaces_or_comments n (at blanks l k))
unfolding skip_white_spaces_or_comments
skip_blanks_end blanks zero l k h ne a = absurd (omega arith)
skip_blanks_end [] (suc n) l k h ne a = absurd (ne refl)
skip_blanks_end (b ∷ blanks) (suc zero) l k h ne a = absurd (omega arith)
skip_blanks_end (b ∷ blanks) (suc (suc n)) l k h ne a = rw (a.0.0) (
    Leaves-bind _ (skip_white_spaces_end (b ∷ blanks) (suc n) l k (omega arith) a)
      (λ l' k'. leaves l' k'))
