-- ===== src/Symbols/Walks.antt =====
-- What the walks of `src/abg-ir.cc` over a ring of aliases find.
use cyglibabigail.Base.{
  ℕ, zero, suc, ◌<◌, Bool, true, false, ◌||◌, List, [], ◌∷◌, if◌then◌else◌, ◌==◌, ◌≡◌, refl, sym,
  ap, ◌∙◌, ◌⊎◌, inl, inr, arith, Bool-cases, ==_iff, length, returned, same_text_refl,
}
use cyglibabigail.Symbols.Symbol.{
  Symbol, SymbolType, notype_type, object_type, func_type, section_type, file_type, common_type,
  tls_type, gnu_ifunc_type, same_type, same_flag, same_symbol, is_public,
}
use cyglibabigail.Symbols.Aliases.{
  Symbols, any_alias, does_alias, elf_symbols_alias, push_aliases, compute_aliases_for_elf_symbol,
}
use cyglibabigail.Symbols.Rings.{Avoids, Links, HaveMain, IsRing}

abbrev pub IsIn : ℕ → List ℕ → Type 0
IsIn x [] = ⊥
IsIn x (a ∷ l) = (x ≡ a) ⊎ IsIn x l

same_flag_refl : (b : Bool) → same_flag b b ≡ true
same_flag_refl true = refl
same_flag_refl false = refl

same_type_refl : (t : SymbolType) → same_type t t ≡ true
same_type_refl notype_type = refl
same_type_refl object_type = refl
same_type_refl func_type = refl
same_type_refl section_type = refl
same_type_refl file_type = refl
same_type_refl common_type = refl
same_type_refl tls_type = refl
same_type_refl gnu_ifunc_type = refl

same_symbol_refl : (s : Symbol) → same_symbol s s ≡ true
unfolding same_symbol
same_symbol_refl s =
    rw
      (
        same_text_refl s.name,
        same_type_refl s.type,
        same_flag_refl (is_public s),
        same_flag_refl s.is_defined,
      )
      (same_text_refl s.version.version)

-- Whether some of the symbols equals that at `o`.
abbrev equals_one : Symbols → ℕ → List ℕ → Bool
equals_one s o [] = false
equals_one s o (a ∷ l) = same_symbol (s o) (s a) || equals_one s o l

equals_one-IsIn : (s : Symbols) (o : ℕ) (l : List ℕ) → IsIn o l → equals_one s o l ≡ true
equals_one-IsIn s o [] i = absurd i
equals_one-IsIn s o (a ∷ l) (inl e) =
    let here : same_symbol (s o) (s a) ≡ true =
      ap (λ x. same_symbol (s o) (s x)) (sym e) ∙ same_symbol_refl (s o) in
    rw here refl
equals_one-IsIn s o (a ∷ l) (inr i) = ground (arith, equals_one-IsIn s o l i)

module _ (s : Symbols) (m : ℕ) where
  push_aliases-Links :
      (n x : ℕ) (l : List ℕ)
      → Links s m x l
      → Avoids m l
      → length l < n
      → push_aliases n s m (s x).next_alias ≡ returned l
  unfolding push_aliases
  push_aliases-Links zero x l k v h = absurd (omega arith)
  push_aliases-Links (suc n) x [] k v h =
      let same : (m == m) ≡ true = (==_iff m m).1 refl in
      ap (push_aliases (suc n) s m) k ∙ rw (same, push_aliases) refl
  push_aliases-Links (suc n) x (a ∷ l) k v h =
      ap (push_aliases (suc n) s m) k.0
      ∙ rw (v.0, push_aliases) (rw (push_aliases-Links n a l k.1 v.1 (omega arith)) refl)

  any_alias-Links :
      (n x o : ℕ) (l : List ℕ)
      → Links s m x l
      → Avoids m l
      → length l < n
      → any_alias n s m (s x).next_alias o ≡ returned (equals_one s o l)
  unfolding any_alias
  any_alias-Links zero x o l k v h = absurd (omega arith)
  any_alias-Links (suc n) x o [] k v h =
      let same : (m == m) ≡ true = (==_iff m m).1 refl in
      ap (λ z. any_alias (suc n) s m z o) k ∙ rw (same, any_alias) refl
  any_alias-Links (suc n) x o (a ∷ l) k v h =
      let rest = any_alias-Links n a o l k.1 v.1 (omega arith) in
      ap (λ z. any_alias (suc n) s m z o) k.0 ∙ (elim (Bool-cases (same_symbol (s o) (s a))) [
        | inl same ↦ rw (v.0, any_alias, same) refl
        | inr other ↦ rw (v.0, any_alias, other) rest
      ])

  does_alias-Links :
      (n x o : ℕ) (l : List ℕ)
      → Links s m x l
      → (s x).main_symbol ≡ m
      → Avoids m l
      → length l < n
      → does_alias n s x o ≡ returned (same_symbol (s x) (s o) || equals_one s o l)
  unfolding does_alias
  does_alias-Links n x o l k p v h = elim (Bool-cases (same_symbol (s x) (s o))) [
    | inl same ↦ rw (same, does_alias) refl
    | inr other ↦ rw (other, does_alias, p) (any_alias-Links n x o l k v h)
  ]

  -- The walk from a member of the ring ends.
  does_alias-returns :
      (n x o z : ℕ) (l : List ℕ)
      → Links s m z l
      → HaveMain s m (z ∷ l)
      → Avoids m l
      → length l < n
      → IsIn x (z ∷ l)
      → (b : Bool) × (does_alias n s x o ≡ returned b)
  does_alias-returns n x o z l k p v h (inl e) = (
    same_symbol (s z) (s o) || equals_one s o l,
    ap (λ y. does_alias n s y o) e ∙ does_alias-Links n z o l k p.0 v h,
  )
  does_alias-returns n x o z [] k p v h (inr i) = absurd i
  does_alias-returns n x o z (a ∷ l) k p v h (inr i) =
      does_alias-returns n x o a l k.1 p.1 v.1 (omega arith) i

  -- A symbol aliases those behind it.
  does_alias-IsIn :
      (n z y : ℕ) (l : List ℕ)
      → Links s m z l
      → (s z).main_symbol ≡ m
      → Avoids m l
      → length l < n
      → IsIn y (z ∷ l)
      → does_alias n s z y ≡ returned true
  does_alias-IsIn n z y l k p v h i = does_alias-Links n z y l k p v h ∙ ap returned (either i)
    where
      either : IsIn y (z ∷ l) → same_symbol (s z) (s y) || equals_one s y l ≡ true
      either (inl e) =
          let same : same_symbol (s z) (s y) ≡ true =
            ap (λ x. same_symbol (s z) (s x)) e ∙ same_symbol_refl (s z) in
          rw same refl
      either (inr i) = ground (arith, equals_one-IsIn s y l i)

  elf_symbols_alias-Links :
      (n x y z : ℕ) (l : List ℕ)
      → Links s m z l
      → HaveMain s m (z ∷ l)
      → Avoids m l
      → length l < n
      → IsIn x (z ∷ l)
      → IsIn y (z ∷ l)
      → elf_symbols_alias n s x y ≡ returned true
  unfolding elf_symbols_alias
  elf_symbols_alias-Links n x y z l k p v h (inl e) j =
      rw (ap (λ w. does_alias n s w y) e ∙ does_alias-IsIn n z y l k p.0 v h j) refl
  elf_symbols_alias-Links n x y z l k p v h (inr i) (inl e) =
      let (b, first) = does_alias-returns n x y z l k p v h (inr i) in
      let second : does_alias n s y x ≡ returned true =
        ap (λ w. does_alias n s w x) e ∙ does_alias-IsIn n z x l k p.0 v h (inr i) in
      rw first (either b second)
    where
      either :
          (b : Bool)
          → does_alias n s y x ≡ returned true
          → (if b then returned true else does_alias n s y x) ≡ returned true
      either true e = refl
      either false e = e
  elf_symbols_alias-Links n x y z [] k p v h (inr i) (inr j) = absurd i
  elf_symbols_alias-Links n x y z (a ∷ l) k p v h (inr i) (inr j) =
      elf_symbols_alias-Links n x y a l k.1 p.1 v.1 (omega arith) i j

-- With fuel above the number of aliases, the aliases of a main symbol that has some are those of its
-- ring, in its order, whatever the table.
pub compute_aliases_for_elf_symbol-IsRing :
    (n : ℕ) (s : Symbols) (m a : ℕ) (l symtab : List ℕ)
    → IsRing s m (a ∷ l)
    → suc (length l) < n
    → compute_aliases_for_elf_symbol n s m symtab ≡ returned (a ∷ l)
unfolding compute_aliases_for_elf_symbol
compute_aliases_for_elf_symbol-IsRing n s m a l symtab r h =
    rw (r.chained.0, compute_aliases_for_elf_symbol, r.mains.0)
      (ap (push_aliases n s m) (sym r.chained.0)
        ∙ push_aliases-Links s m n m (a ∷ l) r.chained r.distinct.0 h)

-- Any two symbols of a ring with aliases alias each other, whichever comes first, with fuel above
-- the number of aliases.
pub elf_symbols_alias-IsRing :
    (n : ℕ) (s : Symbols) (m a : ℕ) (l : List ℕ) (x y : ℕ)
    → IsRing s m (a ∷ l)
    → suc (length l) < n
    → IsIn x (m ∷ a ∷ l)
    → IsIn y (m ∷ a ∷ l)
    → elf_symbols_alias n s x y ≡ returned true
elf_symbols_alias-IsRing n s m a l x y r h =
    elf_symbols_alias-Links s m n x y m (a ∷ l) r.chained r.mains r.distinct.0 h
