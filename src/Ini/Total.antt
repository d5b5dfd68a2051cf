-- ===== src/Ini/Total.antt =====
-- The loops of the INI reader end: fuel above the number of unread bytes is enough for each, and
-- only a cut-off escape aborts.
pub mod Names
pub mod Sections
use cyglibabigail.Base.{
  Outcome, ◌>>=◌, Ensures, returns, aborts, Ensures-bind, Ensures-map, ℕ, zero, suc, ◌+◌, ◌-◌, ◌≤◌,
  ◌<◌, Bool, true, false, not, ◌&&◌, ◌||◌, List, [], ◌∷◌, ◌≡◌, refl, ◌==◌, arith, length, ◌⊎◌, inl,
  inr, Bool-cases,
}
use cyglibabigail.Ini.Stream.{Reader, good, peek, eof_value}
use cyglibabigail.Ini.Chars.{char_is_white_space, char_is_comment_start}
use cyglibabigail.Ini.Reader.{
  Got, read_next_char, check_read, skip_line_loop, skip_line, skip_white_spaces, skip_comments,
  skip_white_spaces_or_comments,
}
use cyglibabigail.Ini.Ensures.{cut_escape, read_next_char-Reads}

-- What `peek` tells of a reader.
pub record Peeks (r : Reader) : Type 0 where
  pub rest : (peek r).1.rest ≡ r.rest
  pub fails : (r.fail ≡ true → r.eof ≡ true) → (peek r).1.fail ≡ true → (peek r).1.eof ≡ true
  pub byte_left : good (peek r).1 ≡ true → (good r ≡ true) × (0 < length r.rest)
  pub again : good (peek r).1 ≡ true → peek (peek r).1 ≡ peek r
  pub no_byte : good (peek r).1 ≡ false → (peek r).0 ≡ eof_value

peeks :
    (bytes : List ℕ) (e f : Bool) (l k : ℕ)
    → let r : Reader = record { rest = bytes; eof = e; fail = f; line = l; column = k } in Peeks r
peeks [] e f l k = ground arith
peeks (x ∷ bytes) e f l k = ground arith

pub peek-Peeks : (r : Reader) → Peeks r
peek-Peeks r = peeks r.rest r.eof r.fail r.line r.column

-- A test that a peeked byte meets is met again by the next `peek`.
test_again :
    (p : ℕ → Bool) (r : Reader)
    → p eof_value ≡ false
    → p (peek r).0 ≡ true
    → (good (peek (peek r).1).1 && p (peek (peek r).1).0) ≡ true
test_again p r none_left h = elim (Bool-cases (good (peek r).1)) [
  | inl ok ↦ rw ((peek-Peeks r).again ok) (rw ok h)
  | inr bad ↦ cc ((peek-Peeks r).no_byte bad)
]

module _ (bytes : List ℕ) where
  abbrev pub IsCut : Type 0
  IsCut = cut_escape bytes ≡ true

  -- At most `n` bytes are left, what is left ends as `bytes` do, and a stream that has failed is at
  -- its end.
  pub record Left (n : ℕ) (r : Reader) : Type 0 where
    pub size : length r.rest ≤ n
    pub suffix : cut_escape r.rest ≡ true → IsCut
    pub fails : r.fail ≡ true → r.eof ≡ true

  pub Left-mono : {m n : ℕ} {r : Reader} → Left m r → m ≤ n → Left n r
  Left-mono l h = record { size = omega arith; suffix = l.suffix; fails = l.fails }

  pub peek-Left : {n : ℕ} (r : Reader) → Left n r → Left n (peek r).1
  peek-Left r l =
      let q = peek-Peeks r in
      record { size = rw q.rest l.size; suffix = rw q.rest l.suffix; fails = q.fails l.fails }

  pub read_next_char-Left :
      {n : ℕ} (r : Reader) (c : ℕ) → Left n r → Left n (read_next_char c r).reader
  read_next_char-Left r c l =
      let s = read_next_char-Reads r c in
      record { size = omega arith; suffix = λ h. l.suffix (s.suffix h); fails = s.fails l.fails }

  -- A read takes a byte if it succeeds, and on a good stream that has one.
  pub read_next_char-shrinks :
      {n : ℕ} (r : Reader) (c : ℕ)
      → Left n r
      → ((read_next_char c r).is_ok ≡ true) ⊎ ((good r ≡ true) × (0 < length r.rest))
      → (0 < n) × Left (n - 1) (read_next_char c r).reader
  read_next_char-shrinks {n} r c l h =
      let s = read_next_char-Reads r c in
      let less : length (read_next_char c r).reader.rest < length r.rest = elim h [
        | inl ok ↦ s.shorter ok
        | inr (ok, pos) ↦ s.consumes ok pos
      ] in
      (
        omega arith,
        record { size = omega arith; suffix = λ x. l.suffix (s.suffix x); fails = s.fails l.fails },
      )

  pub check_read-Ensures :
      {n : ℕ} (r : Reader) (c : ℕ)
      → Left n r
      → good r ≡ true
      → 0 < length r.rest
      → Ensures IsCut (λ g. (0 < n) × Left (n - 1) g.reader) (check_read (read_next_char c r))
  check_read-Ensures r c l ok pos = elim (Bool-cases (read_next_char c r).is_ok) [
    | inl done ↦ rw done (returns (read_next_char-shrinks r c l (inl done)))
    | inr failed ↦ rw failed (aborts (l.suffix ((read_next_char-Reads r c).cut failed pos ok)))
  ]

  -- The loops that assert a read while a test of the peeked byte holds.
  pub peek_check-Ensures :
      {n : ℕ} (r : Reader) (c : ℕ)
      → Left n r
      → good (peek r).1 ≡ true
      → Ensures IsCut
          (λ g. (0 < n) × Left (n - 1) g.reader)
          (check_read (read_next_char c (peek r).1))
  peek_check-Ensures r c l ok =
      let p = peek-Peeks r in
      check_read-Ensures (peek r).1 c (peek-Left r l) ok (rw p.rest (p.byte_left ok).1)

  pub skip_line_loop-Ensures :
      (n m : ℕ) (g : Got)
      → 0 < n
      → (g.is_ok ≡ true → m + 1 < n)
      → Left m g.reader
      → Ensures IsCut (λ h. Left m h.reader) (skip_line_loop n g)
  unfolding skip_line_loop
  skip_line_loop-Ensures zero m g pos h l = absurd (omega arith)
  skip_line_loop-Ensures (suc n) m g pos h l = elim (Bool-cases (not g.is_ok || g.c == b'\n')) [
    | inl stop ↦ rw stop (returns l)
    | inr more ↦ rw more (
        let g' = read_next_char g.c g.reader in
        let room : m + 1 < suc n = h (ground arith) in
        elim (Bool-cases g'.is_ok) [
          | inl ok ↦
              let (pos', l') = read_next_char-shrinks g.reader g.c l (inl ok) in
              Ensures-map (skip_line_loop-Ensures n (m - 1) g' (omega arith) (λ _. omega arith) l')
                (λ k q. Left-mono q (omega arith))
          | inr failed ↦
              skip_line_loop-Ensures n m g' (omega arith) (λ ok. cc)
                (read_next_char-Left g.reader g.c l)
        ])
  ]

  -- `skip_line` takes the byte that `peek` showed.
  pub skip_line-Ensures :
      (n m : ℕ) (r : Reader)
      → m < n
      → good r ≡ true
      → 0 < length r.rest
      → Left m r
      → Ensures IsCut (λ p. (0 < m) × Left (m - 1) p.1) (skip_line n r)
  unfolding skip_line
  skip_line-Ensures n m r h ok pos l =
      let (some_left, l') = read_next_char-shrinks r 0 l (inr (ok, pos)) in
      Ensures-bind
        (skip_line_loop-Ensures n (m - 1) (read_next_char 0 r) (omega arith) (λ _. omega arith) l')
        (λ g q. returns (some_left, q))

  abbrev Skips : (ℕ → Bool) → ℕ → Reader → Bool × Reader → Type 0
  Skips p m r (_, r') =
      Left m r' × (good (peek r).1 && p (peek r).0 ≡ true → (0 < m) × Left (m - 1) r')

  pub skip_white_spaces-Ensures :
      (n m : ℕ) (r : Reader)
      → m < n
      → Left m r
      → Ensures IsCut (Skips char_is_white_space m r) (skip_white_spaces n r)
  unfolding skip_white_spaces
  skip_white_spaces-Ensures zero m r h l = absurd (omega arith)
  skip_white_spaces-Ensures (suc n) m r h l =
      elim (Bool-cases (good (peek r).1 && char_is_white_space (peek r).0)) [
        | inl more ↦ rw more (
            Ensures-bind (peek_check-Ensures r (peek r).0 l (ground arith)) λ g (pos, l').
              Ensures-map (skip_white_spaces-Ensures n (m - 1) g.reader (omega arith) l')
                (λ p q. (Left-mono q.0 (omega arith), λ _. (pos, q.0))))
        | inr stop ↦ rw stop (returns (peek-Left r l, λ t. cc))
      ]

  pub skip_comments-Ensures :
      (n m : ℕ) (r : Reader)
      → m + 1 < n
      → Left m r
      → Ensures IsCut (Skips char_is_comment_start m r) (skip_comments n r)
  unfolding skip_comments
  skip_comments-Ensures zero m r h l = absurd (omega arith)
  skip_comments-Ensures (suc n) m r h l =
      elim (Bool-cases (good (peek r).1 && char_is_comment_start (peek r).0)) [
        | inl more ↦ rw more (
            let p = peek-Peeks r in
            let ok : good (peek r).1 ≡ true = ground arith in
            let room : m < n = omega arith in
            Ensures-bind
              (skip_line-Ensures n m (peek r).1 room ok (rw p.rest (p.byte_left ok).1)
                (peek-Left r l))
              λ (_, r'') (pos, l').
                Ensures-map (skip_comments-Ensures n (m - 1) r'' (omega arith) l')
                  (λ q s. (Left-mono s.0 (omega arith), λ _. (pos, s.0))))
        | inr stop ↦ rw stop (returns (peek-Left r l, λ t. cc))
      ]

  -- One round of `skip_white_spaces_or_comments`, with the rounds behind it.
  module _ (n m : ℕ) (r : Reader) (h : m + 1 < n) (l : Left m r)
      (later : (r' : Reader)
        → 0 < m
        → Left (m - 1) r'
        → Ensures IsCut
            (λ (p : Bool × Reader). Left m p.1)
            (skip_white_spaces_or_comments n r')) where
    after :
        (p : ℕ → Bool)
        → p eof_value ≡ false
        → p (peek r).0 ≡ true
        → {o : Outcome (Bool × Reader)} → Ensures IsCut (Skips p m (peek r).1) o
        → Ensures IsCut
            (λ (p : Bool × Reader). Left m p.1)
            (o >>= λ (_, r''). skip_white_spaces_or_comments n r'')
    after p none_left t e =
        Ensures-bind e
          λ (_, r'') s. let (pos, l') = s.1 (test_again p r none_left t) in later r'' pos l'

    round :
        Ensures IsCut (λ (p : Bool × Reader). Left m p.1) (skip_white_spaces_or_comments (suc n) r)
    unfolding skip_white_spaces_or_comments
    round = elim (Bool-cases (not (good r))) [
      | inl stop ↦ rw stop (returns l)
      | inr live ↦ rw live (elim (Bool-cases (char_is_white_space (peek r).0)) [
        | inl blank ↦ rw blank (
            after char_is_white_space refl blank
              (skip_white_spaces-Ensures n m (peek r).1 (omega arith) (peek-Left r l)))
        | inr other ↦ rw other (elim (Bool-cases (char_is_comment_start (peek r).0)) [
          | inl mark ↦ rw mark (
              after char_is_comment_start refl mark
                (skip_comments-Ensures n m (peek r).1 h (peek-Left r l)))
          | inr neither ↦ rw neither (returns (peek-Left r l))
        ])
      ])
    ]

  pub skip_white_spaces_or_comments-Ensures :
      (n m : ℕ) (r : Reader)
      → m + 2 < n
      → Left m r
      → Ensures IsCut (λ p. Left m p.1) (skip_white_spaces_or_comments n r)
  skip_white_spaces_or_comments-Ensures zero m r h l = absurd (omega arith)
  skip_white_spaces_or_comments-Ensures (suc n) m r h l = round n m r (omega arith) l λ r' pos k.
      Ensures-map (skip_white_spaces_or_comments-Ensures n (m - 1) r' (omega arith) k)
        (λ p q. Left-mono q (omega arith))
