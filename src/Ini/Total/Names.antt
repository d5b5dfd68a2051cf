-- ===== src/Ini/Total/Names.antt =====
-- The readers of names, values and properties in `src/abg-ini.cc` end, and a name or a property
-- that is read takes at least one byte.
use cyglibabigail.Base.{
  Ensures, returns, Ensures-bind, Ensures-map, Ensures-cases, ℕ, zero, suc, ◌-◌, ◌≤◌, ◌<◌, Bool,
  true, false, not, ◌&&◌, ◌||◌, List, [], ◌∷◌, ◌++◌, ◌≡◌, Option, none, some, ◌==◌, arith, length,
  inl, inr, Bool-cases,
}
use cyglibabigail.Ini.Stream.{Reader, good, peek}
use cyglibabigail.Ini.Chars.{
  char_is_delimiter, char_is_property_value_char, char_is_section_name_char,
  char_is_property_name_char,
}
use cyglibabigail.Ini.Reader.{read_next_char}
use cyglibabigail.Ini.Sections.{
  read_while, read_text, read_property_name, read_property_value, read_section_text,
  read_section_name, read_named_value, read_equal_sign, read_property,
}
use cyglibabigail.Ini.Total.{
  peek-Peeks, IsCut, Left, Left-mono, peek-Left, read_next_char-Left, read_next_char-shrinks,
  check_read-Ensures, peek_check-Ensures, skip_white_spaces-Ensures,
}

module _ (bytes : List ℕ) where
  -- A result `some` has taken a byte.
  abbrev pub Takes {ℓ} : {A : Type ℓ} → ℕ → Option A × Reader → Type 0
  Takes m (none, r) = Left bytes m r
  Takes m (some _, r) = (0 < m) × Left bytes (m - 1) r

  pub Takes-Left {ℓ} : {A : Type ℓ} {m : ℕ} (q : Option A × Reader) → Takes m q → Left bytes m q.1
  Takes-Left (none, r) t = t
  Takes-Left (some a, r) t = Left-mono bytes t.1 (omega arith)

  pub Left-Takes {ℓ} :
      {A : Type ℓ} {m : ℕ} → 0 < m → (q : Option A × Reader) → Left bytes (m - 1) q.1 → Takes m q
  Left-Takes pos (none, r) l = Left-mono bytes l (omega arith)
  Left-Takes pos (some a, r) l = (pos, l)

  read_while-Ensures :
      (p : ℕ → Bool) (k : Bool) (n m : ℕ) (text : List ℕ) (c : ℕ) (r : Reader)
      → m < n
      → Left bytes m r
      → Ensures (IsCut bytes) (λ q. Left bytes m q.1) (read_while p k n text c r)
  unfolding read_while
  read_while-Ensures p k zero m text c r h l = absurd (omega arith)
  read_while-Ensures p k (suc n) m text c r h l =
      elim (Bool-cases (good (peek r).1 && p (peek r).0)) [
        | inl more ↦ rw more (
            Ensures-bind (peek_check-Ensures bytes r _ l (ground arith)) λ g (pos, l').
              Ensures-map
                (read_while-Ensures p k n (m - 1) (text ++ g.c ∷ []) g.c g.reader (omega arith) l')
                (λ q s. Left-mono bytes s (omega arith)))
        | inr stop ↦ rw stop (returns (peek-Left bytes r l))
      ]

  read_text-Ensures :
      (p : ℕ → Bool) (k : Bool) (n m : ℕ) (c : ℕ) (r : Reader)
      → m ≤ n
      → good r ≡ true
      → 0 < length r.rest
      → Left bytes m r
      → Ensures (IsCut bytes) (Takes m) (read_text p k n c r)
  unfolding read_text
  read_text-Ensures p k n m c r h ok pos l =
      Ensures-bind (check_read-Ensures bytes r c l ok pos) λ g (pos', l').
        Ensures-bind (read_while-Ensures p k n (m - 1) _ _ g.reader (omega arith) l')
          (λ q s. returns (pos', s))

  module _ (n m : ℕ) (r : Reader) (h : m ≤ n) (l : Left bytes m r) where
    peeked_text-Ensures :
        (p : ℕ → Bool) (k : Bool) (c : ℕ)
        → good (peek r).1 ≡ true
        → Ensures (IsCut bytes) (Takes m) (read_text p k n c (peek r).1)
    peeked_text-Ensures p k c ok =
        let q = peek-Peeks r in
        read_text-Ensures p k n m c (peek r).1 h ok (rw q.rest (q.byte_left ok).1)
          (peek-Left bytes r l)

    read_property_name-Ensures : Ensures (IsCut bytes) (Takes m) (read_property_name n r)
    unfolding read_property_name
    read_property_name-Ensures =
        elim (Bool-cases (not (good (peek r).1) || not (char_is_property_name_char (peek r).0))) [
          | inl stop ↦ rw stop (returns (peek-Left bytes r l))
          | inr more ↦
              rw more (peeked_text-Ensures char_is_property_name_char true _ (ground arith))
        ]

    read_property_value-Ensures :
        Ensures (IsCut bytes) (λ q. Left bytes m q.1) (read_property_value n r)
    unfolding read_property_value
    read_property_value-Ensures = elim (Bool-cases (not (good (peek r).1))) [
      | inl stop ↦ rw stop (returns (peek-Left bytes r l))
      | inr live ↦ rw live (elim (Bool-cases (char_is_delimiter (peek r).0)) [
        | inl blank ↦ rw blank (returns (peek-Left bytes r l))
        | inr more ↦ rw more (
            Ensures-map (peeked_text-Ensures char_is_property_value_char false 0 (ground arith))
              Takes-Left)
      ])
    ]

    pub read_section_name-Ensures : Ensures (IsCut bytes) (Takes m) (read_section_name n r)
    unfolding read_section_name read_section_text
    read_section_name-Ensures =
        elim (Bool-cases (not (good (peek r).1) || not (char_is_section_name_char (peek r).0))) [
          | inl stop ↦ rw stop (returns (peek-Left bytes r l))
          | inr more ↦ rw more (
              let q = peek-Peeks r in
              let ok : good (peek r).1 ≡ true = ground arith in
              let g = read_next_char 0 (peek r).1 in
              let (pos, l') =
                read_next_char-shrinks bytes (peek r).1 0 (peek-Left bytes r l)
                  (inr (ok, rw q.rest (q.byte_left ok).1)) in
              Ensures-bind
                (read_while-Ensures char_is_section_name_char false n (m - 1) (g.c ∷ []) g.c
                  g.reader (omega arith) l')
                (λ t s. returns (pos, s)))
        ]

    read_named_value-Ensures :
        (name : List ℕ) (blank : Bool)
        → Ensures (IsCut bytes) (λ q. Left bytes m q.1) (read_named_value n name (blank, r))
    unfolding read_named_value
    read_named_value-Ensures name blank = elim (Bool-cases (not (good r))) [
      | inl stop ↦ rw stop (returns l)
      | inr live ↦
          rw live (
            Ensures-cases _ read_property_value-Ensures (λ r' s. returns s)
              (λ text r' s. returns s))
    ]

  read_equal_sign-Ensures :
      (n m : ℕ) (name : List ℕ) (blank : Bool) (r : Reader)
      → m < n
      → Left bytes m r
      → Ensures (IsCut bytes) (λ q. Left bytes m q.1) (read_equal_sign n name (blank, r))
  unfolding read_equal_sign
  read_equal_sign-Ensures n m name blank r h l = elim (Bool-cases (not (good r))) [
    | inl stop ↦ rw stop (returns l)
    | inr live ↦ rw live (
        let g = read_next_char 0 r in
        let l' = read_next_char-Left bytes r 0 l in
        elim (Bool-cases (not g.is_ok || not (g.c == b'='))) [
          | inl stop ↦ rw stop (returns l')
          | inr more ↦ rw more (
              Ensures-bind (skip_white_spaces-Ensures bytes n m g.reader h l')
                λ (b, r') s. read_named_value-Ensures n m r' (omega arith) s.0 name b)
        ])
  ]

  pub read_property-Ensures :
      (n m : ℕ) (r : Reader)
      → m < n
      → Left bytes m r
      → Ensures (IsCut bytes) (Takes m) (read_property n r)
  unfolding read_property
  read_property-Ensures n m r h l =
      Ensures-cases _ (read_property_name-Ensures n m r (omega arith) l) (λ r' s. returns s)
        λ text r' (pos, l').
          Ensures-bind (skip_white_spaces-Ensures bytes n (m - 1) r' (omega arith) l') λ (b, r'') s.
            Ensures-map (read_equal_sign-Ensures n (m - 1) text b r'' (omega arith) s.0)
              (Left-Takes pos)
