-- ===== src/Changes/Pruned.antt =====
-- The loops of `src/abg-comparison.cc` that erase from a table the declarations whose symbol is found
-- in the other corpus.
use cyglibabigail.Base.{
  Bool, true, false, List, [], ◌∷◌, Option, none, some, if◌then◌else◌, ◌≡◌, refl, ◌∙◌, ap,
  Bool-cases, inl, inr, returned, same_text, same_text-eq,
}
use cyglibabigail.Symbols.Symbol.{Symbol}
use cyglibabigail.Changes.Maps.{
  Text, Map, find, same_text_sym, put, erase, names_with, erase_all, find-put, find-erase,
}
use cyglibabigail.Changes.Decls.{Decl, Lookup, has, symbol_is_in, without_found}

abbrev pub HasSymbol : Decl → Type 0
HasSymbol d = (s : Symbol) × (d.symbol ≡ some s)

-- A table with one entry for a name, each of a declaration with a symbol.
unfoldable pub IsTable : Map Decl → Type 0
IsTable [] = Unit {0}
IsTable (e ∷ m) = (find e.key m ≡ none) × HasSymbol e.value × IsTable m

pub put-IsTable :
    (k : Text) (d : Decl) (m : Map Decl) → HasSymbol d → IsTable m → IsTable (put k d m)
unfolding put IsTable find
put-IsTable k d [] h g = (refl, h, tt)
put-IsTable k d (e ∷ m) h g = elim (Bool-cases (same_text k e.key)) [
  | inl here ↦ rw here (rw (same_text-eq k e.key here) g.0, h, g.2)
  | inr there ↦
      rw there
        (rw (find-put e.key k d m, same_text_sym k e.key there) g.0, g.1, put-IsTable k d m h g.2)
]

pub erase-IsTable : (k : Text) (m : Map Decl) → IsTable m → IsTable (erase k m)
unfolding erase IsTable
erase-IsTable k [] g = tt
erase-IsTable k (e ∷ m) g = elim (Bool-cases (same_text k e.key)) [
  | inl here ↦ rw here (erase-IsTable k m g.2)
  | inr there ↦
      rw there
        (rw (find-erase e.key k m, same_text_sym k e.key there) g.0, g.1, erase-IsTable k m g.2)
]

unfoldable pub listed : Text → List Text → Bool
listed k [] = false
listed k (l ∷ ls) = let rest = listed k ls in if same_text k l then true else rest

pub find-erase_all :
    (k : Text) (ks : List Text) (m : Map Decl)
    → find k (erase_all ks m) ≡ (if listed k ks then none else find k m)
unfolding erase_all listed
find-erase_all k [] m = refl
find-erase_all k (l ∷ ls) m =
    find-erase_all k ls (erase l m)
    ∙ rw (find-erase k l m) (both_tests (listed k ls) (same_text k l) (find k m))
  where
    both_tests :
        (b c : Bool) (o : Option Decl)
        → (if b then none else (if c then none else o))
          ≡ (if (if c then true else b) then none else o)
    both_tests true true o = refl
    both_tests true false o = refl
    both_tests false true o = refl
    both_tests false false o = refl

abbrev has_of : Lookup → Option Symbol → Bool
has_of look none = false
has_of look (some s) = has look s

-- Whether the symbol of a declaration that a table may have is found.
abbrev pub is_kept : Lookup → Option Decl → Bool
is_kept look none = false
is_kept look (some d) = has_of look d.symbol

-- What is left at a name.
abbrev pub unless_found : Lookup → Option Decl → Option Decl
unless_found look o = if is_kept look o then none else o

names_with-listed :
    (look : Lookup) (m : Map Decl)
    → IsTable m
    → (ks : List Text) × (names_with (symbol_is_in look) m ≡ returned ks)
      × ((k : Text) → listed k ks ≡ is_kept look (find k m))
unfolding names_with IsTable find listed symbol_is_in
names_with-listed look [] g = ([], refl, λ k. refl)
names_with-listed look (e ∷ m) g =
    let (s, symbol_of) = g.1 in
    let (ks, returns, lists) = names_with-listed look m g.2 in
    (
      if has look s then e.key ∷ ks else ks,
      rw (symbol_of, returns) refl,
      λ k. elim (Bool-cases (same_text k e.key)) [
        | inl here ↦
            let not_listed : listed k ks ≡ false =
              rw (same_text-eq k e.key here) (lists e.key ∙ ap (is_kept look) g.0) in
            rw (here, symbol_of)
              (elim (Bool-cases (has look s)) [
                | inl h ↦ rw (h, here) refl
                | inr h ↦ rw h not_listed
              ])
        | inr there ↦ rw there (elim (Bool-cases (has look s)) [
          | inl h ↦ rw (h, there) (lists k)
          | inr h ↦ rw h (lists k)
        ])
      ],
    )

-- On such a table the loops return, and leave at each name of the other table what is not found.
pub without_found_lem :
    (look : Lookup) (m erased : Map Decl)
    → IsTable m
    → (n : Map Decl) × (without_found look m erased ≡ returned n)
      × ((k : Text) → find k n ≡ (if is_kept look (find k m) then none else find k erased))
unfolding without_found
without_found_lem look m erased g =
    let (ks, returns, lists) = names_with-listed look m g in
    (erase_all ks erased, rw returns refl, λ k. find-erase_all k ks erased ∙ rw (lists k) refl)
