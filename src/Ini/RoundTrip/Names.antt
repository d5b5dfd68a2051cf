-- ===== src/Ini/RoundTrip/Names.antt =====
-- The INI reader on one written property.
use cyglibabigail.Base.{
  ℕ, ◌+◌, ◌≤◌, ◌<◌, Bool, true, false, List, [], ◌∷◌, ◌++◌, ◌≡◌, refl, some, arith, length,
}
use cyglibabigail.Ini.Chars.{
  char_is_delimiter, char_is_property_value_char, char_is_section_name_char,
  char_is_property_name_char,
}
use cyglibabigail.Ini.Sections.{
  Property, read_text, read_property_name, read_property_value, read_section_text,
  read_section_name, read_named_value, read_equal_sign, read_property,
}
use cyglibabigail.Ini.Writer.{write_property}
use cyglibabigail.Ini.RoundTrip.{
  at, Leaves, leaves, Leaves-bind, All, Plain, read_at, read_while-at, skip_white_spaces-at,
}

-- A text that is not empty, of bytes that the test accepts and that start no escape.
abbrev pub Text : (ℕ → Bool) → List ℕ → Type 0
Text p [] = ⊥
Text p (b ∷ text) = All (Plain p) (b ∷ text)

-- A value that can be read back: it does not begin with a delimiter.
abbrev pub ValueText : List ℕ → Type 0
ValueText [] = ⊥
ValueText (b ∷ text) =
    (char_is_delimiter b ≡ false) × All (Plain char_is_property_value_char) (b ∷ text)

-- The properties that the format can hold.
pub record IsWritable (prop : Property) : Type 0 where
  pub name : Text char_is_property_name_char prop.name
  pub value : ValueText prop.value

module _ (n : ℕ) where
  read_text-at :
      (p : ℕ → Bool) (keep : Bool) (b : ℕ) (text : List ℕ) (c x : ℕ) (rest : List ℕ) (l k : ℕ)
      → length text < n
      → All (Plain p) (b ∷ text)
      → p x ≡ false
      → Leaves
          (some (b ∷ text))
          (at (x ∷ rest))
          (read_text p keep n c (at (b ∷ (text ++ (x ∷ rest))) l k))
  unfolding read_text
  read_text-at p keep b text c x rest l k h a stop =
      let (l', k', e) = read_at b c (text ++ (x ∷ rest)) l k a.0.1 in
      rw e (
        Leaves-bind _ (read_while-at p keep text (b ∷ []) n b x rest l' k' h a.1 stop)
          (λ l'' k''. leaves l'' k''))

  read_property_name-at :
      (name : List ℕ) (x : ℕ) (rest : List ℕ) (l k : ℕ)
      → length name ≤ n
      → Text char_is_property_name_char name
      → char_is_property_name_char x ≡ false
      → Leaves (some name) (at (x ∷ rest)) (read_property_name n (at (name ++ (x ∷ rest)) l k))
  unfolding read_property_name
  read_property_name-at [] x rest l k h a stop = absurd a
  read_property_name-at (b ∷ text) x rest l k h a stop =
      rw (a.0.0) (read_text-at char_is_property_name_char true b text b x rest l k h a stop)

  read_property_value-at :
      (value : List ℕ) (x : ℕ) (rest : List ℕ) (l k : ℕ)
      → length value ≤ n
      → ValueText value
      → char_is_property_value_char x ≡ false
      → Leaves (some value) (at (x ∷ rest)) (read_property_value n (at (value ++ (x ∷ rest)) l k))
  unfolding read_property_value
  read_property_value-at [] x rest l k h a stop = absurd a
  read_property_value-at (b ∷ text) x rest l k h a stop =
      rw (a.0) (read_text-at char_is_property_value_char false b text 0 x rest l k h a.1 stop)

  pub read_section_name-at :
      (name : List ℕ) (x : ℕ) (rest : List ℕ) (l k : ℕ)
      → length name ≤ n
      → Text char_is_section_name_char name
      → char_is_section_name_char x ≡ false
      → Leaves (some name) (at (x ∷ rest)) (read_section_name n (at (name ++ (x ∷ rest)) l k))
  unfolding read_section_name read_section_text
  read_section_name-at [] x rest l k h a stop = absurd a
  read_section_name-at (b ∷ text) x rest l k h a stop =
      let (l', k', e) = read_at b 0 (text ++ (x ∷ rest)) l k a.0.1 in
      rw (a.0.0, e)
        (Leaves-bind _
          (read_while-at char_is_section_name_char false text (b ∷ []) n b x rest l' k' h a.1 stop)
          (λ l'' k''. leaves l'' k''))

  -- Behind the name: ` = `, the value, and the end of the line.
  read_equal_sign-at :
      (name value rest : List ℕ) (l k : ℕ)
      → length value + 1 < n
      → ValueText value
      → Leaves
          (some (record { name = name; value = value }))
          (at (b'\n' ∷ rest))
          (read_equal_sign n name (true, at (b'=' ∷ b' ' ∷ (value ++ (b'\n' ∷ rest))) l k))
  unfolding read_equal_sign read_named_value
  read_equal_sign-at name [] rest l k h a = absurd a
  read_equal_sign-at name (b ∷ text) rest l k h a =
      let (l', k', e) = read_at b'=' 0 (b' ' ∷ b ∷ (text ++ (b'\n' ∷ rest))) l k (omega arith) in
      rw e (
        Leaves-bind _
          (skip_white_spaces-at (b' ' ∷ []) n b (text ++ (b'\n' ∷ rest)) l' k' (omega arith)
            ((refl, omega arith), tt) (ground arith))
          λ l₁ k₁.
            Leaves-bind _ (read_property_value-at (b ∷ text) b'\n' rest l₁ k₁ (omega arith) a refl)
              (λ l₂ k₂. leaves l₂ k₂))

  pub read_property-at :
      (prop : Property) (rest : List ℕ) (l k : ℕ)
      → length prop.name + length prop.value + 1 < n
      → IsWritable prop
      → Leaves
          (some prop)
          (at (b'\n' ∷ rest))
          (read_property n (at (write_property prop (b'\n' ∷ rest)) l k))
  unfolding read_property write_property
  read_property-at prop rest l k h w =
      Leaves-bind _
        (read_property_name-at prop.name b' ' (b'=' ∷ b' ' ∷ (prop.value ++ (b'\n' ∷ rest))) l k
          (omega arith) w.name refl)
        λ l₁ k₁.
          Leaves-bind _
            (skip_white_spaces-at (b' ' ∷ []) n b'=' (b' ' ∷ (prop.value ++ (b'\n' ∷ rest))) l₁ k₁
              (omega arith) ((refl, omega arith), tt) refl)
            (λ l₂ k₂. read_equal_sign-at prop.name prop.value rest l₂ k₂ (omega arith) w.value)
