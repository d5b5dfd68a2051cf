-- ===== src/Ini/Total/Sections.antt =====
-- `read_section` and `read_sections` of `src/abg-ini.cc` end on every input.
use cyglibabigail.Base.{
  returned, ◌>>=◌, Ensures, returns, Ensures-bind, Ensures-map, Ensures-cases, ℕ, zero, suc, ◌+◌,
  ◌-◌, ◌<◌, Bool, true, false, not, ◌||◌, List, [], ◌∷◌, ◌++◌, ◌≡◌, ◌≢◌, none, ◌==◌, arith, length,
  inl, inr, Bool-cases, if◌then◌else◌,
}
use cyglibabigail.Ini.Stream.{Reader, good, peek, open_stream}
use cyglibabigail.Ini.Reader.{read_next_char}
use cyglibabigail.Ini.Sections.{
  Property, Section, read_properties, section_of, read_section_body, open_bracket, read_section,
  read_sections_loop, read_sections,
}
use cyglibabigail.Ini.Ensures.{cut_escape}
use cyglibabigail.Ini.Total.{
  IsCut, Left, Left-mono, peek-Left, read_next_char-Left, skip_white_spaces-Ensures,
  skip_white_spaces_or_comments-Ensures,
}
use cyglibabigail.Ini.Total.Names.{
  Takes, Left-Takes, read_section_name-Ensures, read_property-Ensures,
}

peek_reads :
    (bytes : List ℕ) (e f : Bool) (l k : ℕ)
    → let r : Reader = record { rest = bytes; eof = e; fail = f; line = l; column = k } in
      good (peek r).1 ≡ true
      → (peek r).0 ≢ b'\\'
      → ((read_next_char 0 (peek r).1).is_ok ≡ true)
        × ((read_next_char 0 (peek r).1).c ≡ (peek r).0)
unfolding read_next_char
peek_reads [] e f l k ok h = ground arith
peek_reads (x ∷ bytes) e f l k ok h = ground arith

-- A peeked byte that is no backslash is the character that is read next.
peek_read :
    (r : Reader)
    → good (peek r).1 ≡ true
    → (peek r).0 ≢ b'\\'
    → ((read_next_char 0 (peek r).1).is_ok ≡ true) × ((read_next_char 0 (peek r).1).c ≡ (peek r).0)
peek_read r = peek_reads r.rest r.eof r.fail r.line r.column

module _ (bytes : List ℕ) where
  read_properties-Ensures :
      (n m : ℕ) (ps : List Property) (r : Reader)
      → m + 3 < n
      → Left bytes m r
      → Ensures (IsCut bytes) (λ q. Left bytes m q.1) (read_properties n ps r)
  unfolding read_properties
  read_properties-Ensures zero m ps r h l = absurd (omega arith)
  read_properties-Ensures (suc n) m ps r h l =
      Ensures-cases _ (read_property-Ensures bytes n m r (omega arith) l) (λ r' s. returns s)
        λ p r' (pos, l').
          Ensures-bind (skip_white_spaces_or_comments-Ensures bytes n (m - 1) r' (omega arith) l')
            λ (b, r'') l''.
              Ensures-map (read_properties-Ensures n (m - 1) (ps ++ p ∷ []) r'' (omega arith) l'')
                (λ q s. Left-mono bytes s (omega arith))

  section_of-Left :
      (m : ℕ) (name : List ℕ) (q : List Property × Reader)
      → Left bytes m q.1
      → Left bytes m (section_of name q).1
  unfolding section_of
  section_of-Left m name ([], r) l = l
  section_of-Left m name (p ∷ ps, r) l = l

  read_section_body-Ensures :
      (n m c : ℕ) (name : List ℕ) (blank : Bool) (r : Reader)
      → m + 3 < n
      → Left bytes m r
      → Ensures (IsCut bytes) (λ q. Left bytes m q.1) (read_section_body n c name (blank, r))
  unfolding read_section_body
  read_section_body-Ensures n m c name blank r h l = elim (Bool-cases (not blank)) [
    | inl stop ↦ rw stop (returns l)
    | inr live ↦ rw live (
        let g = read_next_char c r in
        let l' = read_next_char-Left bytes r c l in
        elim (Bool-cases (not g.is_ok || not (g.c == b']'))) [
          | inl stop ↦ rw stop (returns l')
          | inr more ↦ rw more (
              Ensures-bind
                (skip_white_spaces_or_comments-Ensures bytes n m g.reader (omega arith) l')
                λ (b, r') l''.
                  elim b
                    as (λ b.
                      Ensures (IsCut bytes) (λ q. Left bytes m q.1)
                        (if not b
                          then returned (none, r')
                          else (do ps ← read_properties n [] r'; returned (section_of name ps)))) [
                            | false ↦ returns l''
                            | true ↦
                                Ensures-bind (read_properties-Ensures n m [] r' h l'')
                                  (λ q s. returns (section_of-Left m name q s))
                          ])
        ])
  ]

  open_bracket-Ensures :
      (m : ℕ) (r : Reader)
      → good (peek r).1 ≡ true
      → Left bytes m r
      → Ensures (IsCut bytes) (λ q. Left bytes m q.1) (open_bracket (peek r).0 (peek r).1)
  unfolding open_bracket
  open_bracket-Ensures m r ok l = elim (Bool-cases ((peek r).0 == b'[')) [
    | inl open_ ↦
        let (read, c) = peek_read r ok (ground arith) in
        rw (open_, read)
          (rw c (rw open_ (returns (read_next_char-Left bytes (peek r).1 0 (peek-Left bytes r l)))))
    | inr other ↦ rw other (returns (peek-Left bytes r l))
  ]

  read_section-Ensures :
      (n m : ℕ) (r : Reader)
      → m + 3 < n
      → Left bytes m r
      → Ensures (IsCut bytes) (Takes bytes m) (read_section n r)
  unfolding read_section
  read_section-Ensures n m r h l = elim (Bool-cases (not (good (peek r).1))) [
    | inl stop ↦ rw stop (returns (peek-Left bytes r l))
    | inr live ↦ rw live (
        Ensures-bind (open_bracket-Ensures m r (ground arith) l) λ (c, opened) l₁.
          Ensures-cases _ (read_section_name-Ensures bytes n m opened (omega arith) l₁)
            (λ r' s. returns s)
            λ text r' (pos, l').
              Ensures-bind (skip_white_spaces-Ensures bytes n (m - 1) r' (omega arith) l')
                λ (b, r'') s.
                  Ensures-map (read_section_body-Ensures n (m - 1) c text b r'' (omega arith) s.0)
                    (Left-Takes bytes pos))
  ]

  read_sections_loop-Ensures :
      (n m : ℕ) (ss : List Section) (r : Reader)
      → m + 4 < n
      → Left bytes m r
      → Ensures (IsCut bytes) (λ q. Left bytes m q.1) (read_sections_loop n ss r)
  unfolding read_sections_loop
  read_sections_loop-Ensures zero m ss r h l = absurd (omega arith)
  read_sections_loop-Ensures (suc n) m ss r h l = elim (Bool-cases (not (good r))) [
    | inl stop ↦ rw stop (returns l)
    | inr live ↦ rw live (
        Ensures-bind (skip_white_spaces_or_comments-Ensures bytes n m r (omega arith) l)
          λ (b, r') l'.
            Ensures-cases _ (read_section-Ensures n m r' (omega arith) l') (λ r'' s. returns s)
              λ s r'' (pos, l'').
                Ensures-map
                  (read_sections_loop-Ensures n (m - 1) (ss ++ s ∷ []) r'' (omega arith) l'')
                  (λ q s. Left-mono bytes s (omega arith)))
  ]

good_or_eof_true : (r : Reader) → (r.fail ≡ true → r.eof ≡ true) → (good r || r.eof) ≡ true
good_or_eof_true r h = ground arith

-- With fuel above the number of bytes plus four, `read_sections` returns, and its result is true
-- whatever the bytes are; or it aborts, and then the bytes end in an escape that the end of the
-- stream cuts off.
pub read_sections-Ensures :
    (bytes : List ℕ) (n : ℕ)
    → length bytes + 4 < n
    → Ensures (cut_escape bytes ≡ true) (λ q. q.0 ≡ true) (read_sections n bytes)
unfolding read_sections
read_sections-Ensures bytes n h =
    Ensures-bind
      (read_sections_loop-Ensures bytes n (length bytes) [] (open_stream bytes) h
        (record { size = omega arith; suffix = λ x. x; fails = λ x. cc }))
      (λ q s. returns (good_or_eof_true q.1 s.fails))
