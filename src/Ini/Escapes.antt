-- ===== src/Ini/Escapes.antt =====
-- Backslashes in the values that `src/abg-ini.cc` reads.
use cyglibabigail.Base.{
  aborted, ℕ, zero, suc, ◌+◌, ◌-◌, ◌<◌, Bool, true, false, List, [], ◌∷◌, ◌++◌, ◌≡◌, refl, ◌∙◌,
  some, ◌==◌, arith, length, inl, inr, Bool-cases, if◌then◌else◌, append_assoc, append-nil,
}
use cyglibabigail.Ini.Chars.{char_is_property_value_char}
use cyglibabigail.Ini.Reader.{read_next_char}
use cyglibabigail.Ini.Sections.{read_while, read_text, read_property_value}
use cyglibabigail.Ini.RoundTrip.{
  at, Leaves, leaves, Leaves-bind, All, Plain, read_at, read_while-at,
}
use cyglibabigail.Ini.RoundTrip.Names.{ValueText}

-- The last byte of a text, and `c` if it is empty.
abbrev pub last : ℕ → List ℕ → ℕ
last c [] = c
last c (b ∷ text) = last b text

-- The loop over a text that is followed by anything.
read_while_prefix :
    (p : ℕ → Bool) (keep : Bool) (text done tail : List ℕ) (m n c l k : ℕ)
    → length text + n ≡ m
    → All (Plain p) text
    → (l' k' : ℕ) × (read_while p keep m done c (at (text ++ tail) l k)
        ≡ read_while p keep n (done ++ text) (last c text) (at tail l' k'))
unfolding read_while
read_while_prefix p keep [] done tail m n c l k h a =
    let e : m ≡ n = omega arith in (l, k, rw (e, append-nil))
read_while_prefix p keep (b ∷ text) done tail zero n c l k h a = absurd (omega arith)
read_while_prefix p keep (b ∷ text) done tail (suc m) n c l k h a =
    let old = if keep then b else c in
    let (l', k', e) = read_at b old (text ++ tail) l k a.0.1 in
    let (l₂, k₂, e₂) =
      read_while_prefix p keep text (done ++ b ∷ []) tail m n b l' k' (omega arith) a.1 in
    (l₂, k₂, rw (a.0.0, e) (e₂ ∙ rw (append_assoc done (b ∷ []) text)))

-- A backslash, a newline and a byte are read as one character, the old content of `c`.
read_continuation :
    (c b : ℕ) (rest : List ℕ) (l k : ℕ)
    → (l' k' : ℕ) × (read_next_char c (at (b'\\' ∷ b'\n' ∷ b ∷ rest) l k)
        ≡ record { is_ok = true; c = c; reader = at rest l' k' })
unfolding read_next_char
read_continuation c b rest l k = elim (Bool-cases (b == b'\n')) [
  | inl newline ↦ ((if l == 0 then 1 else l) + 1, 0, ground arith)
  | inr other ↦ (if l == 0 then 1 else l, k + 1 + 1 + 1, ground arith)
]

read_while_continued :
    (p : ℕ → Bool) (done more rest : List ℕ) (b x n c l k : ℕ)
    → length more < n
    → p b'\\' ≡ true
    → All (Plain p) more
    → p x ≡ false
    → Leaves
        (done ++ (c ∷ more))
        (at (x ∷ rest))
        (read_while p false (suc n) done c (at (b'\\' ∷ b'\n' ∷ b ∷ (more ++ (x ∷ rest))) l k))
unfolding read_while
read_while_continued p done more rest b x n c l k h q a stop =
    let (l', k', e) = read_continuation c b (more ++ (x ∷ rest)) l k in
    rw (q, e)
      (rw (append_assoc done (c ∷ []) more) at
        (read_while-at p false more (done ++ c ∷ []) n c x rest l' k' h a stop))

read_while_cut :
    (p : ℕ → Bool) (done : List ℕ) (n c l k : ℕ)
    → p b'\\' ≡ true
    → read_while p false (suc n) done c (at (b'\\' ∷ []) l k) ≡ aborted
unfolding read_while read_next_char
read_while_cut p done n c l k q = rw q

module _ (v : ℕ) (text : List ℕ) (w : ValueText (v ∷ text)) where
  -- In a value, a byte behind a backslash and a newline is replaced by a second copy of the byte
  -- before the backslash: for `text` `\` newline `b` `more`, the value is `text`, its last byte, `more`.
  pub read_property_value_continuation :
      (b : ℕ) (more : List ℕ) (x : ℕ) (rest : List ℕ) (n l k : ℕ)
      → length text + length more + 1 < n
      → All (Plain char_is_property_value_char) more
      → char_is_property_value_char x ≡ false
      → Leaves (some ((v ∷ text) ++ (last v text ∷ more))) (at (x ∷ rest)) (
          read_property_value n (at ((v ∷ text) ++ (b'\\' ∷ b'\n' ∷ b ∷ (more ++ (x ∷ rest)))) l k))
  unfolding read_property_value read_text
  read_property_value_continuation b more x rest n l k h a stop =
      let behind = b'\\' ∷ b'\n' ∷ b ∷ (more ++ (x ∷ rest)) in
      let (l₁, k₁, e₁) = read_at v 0 (text ++ behind) l k w.1.0.1 in
      let (l₂, k₂, e₂) =
        read_while_prefix char_is_property_value_char false text (v ∷ []) behind n
          (suc (n - length text - 1)) v l₁ k₁ (omega arith) w.1.1 in
      rw (w.0, e₁, e₂)
        (Leaves-bind _
          (read_while_continued char_is_property_value_char (v ∷ text) more rest b x
            (n - length text - 1) (last v text) l₂ k₂ (omega arith) refl a stop)
          (λ l' k'. leaves l' k'))

  -- A backslash at the end of the stream, behind a value, stops the program by an `assert`.
  pub read_property_value_cut :
      (n l k : ℕ)
      → length text < n
      → read_property_value n (at ((v ∷ text) ++ (b'\\' ∷ [])) l k) ≡ aborted
  unfolding read_property_value read_text
  read_property_value_cut n l k h =
      let (l₁, k₁, e₁) = read_at v 0 (text ++ (b'\\' ∷ [])) l k w.1.0.1 in
      let (l₂, k₂, e₂) =
        read_while_prefix char_is_property_value_char false text (v ∷ []) (b'\\' ∷ []) n
          (suc (n - length text - 1)) v l₁ k₁ (omega arith) w.1.1 in
      rw (w.0, e₁, e₂)
        (rw (
          read_while_cut char_is_property_value_char (v ∷ text) (n - length text - 1) (last v text)
            l₂ k₂ refl))
