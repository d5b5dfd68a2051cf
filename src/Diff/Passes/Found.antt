-- ===== src/Diff/Passes/Found.antt =====
-- What the filters of `src/abg-comp-filter.cc` find on the diff nodes, in the categories.
use cyglibabigail.Base.{ℕ, Bool, true, false, ◌||◌, List, [], ◌∷◌, ◌==◌, ◌≡◌, refl, arith, ==_iff}
use cyglibabigail.Diff.Category.{Category, category_or, is_set}
use cyglibabigail.Diff.Graph.{State, add_to_local_and_inherited_categories}
use cyglibabigail.Diff.Grows.{
  Enumerator, access, compatible_type, harmless_decl_name, non_virt_mem_fun, static_data_member,
  harmless_enum, harmless_symbol_alias, suppressed, size_or_offset, virtual_member, redundant, has,
  has-zip_with, anything, Grows,
}
use cyglibabigail.Diff.Passes.Origin.{StaysAbsent}

-- What the filter finds on `d` is in both categories of the node.
abbrev pub HasFound : (ℕ → Category) → ℕ → State → Type 0
HasFound change d t =
    (b : Enumerator)
    → has b (change d) ≡ true
    → (has b (t.category d) ≡ true) × (has b (t.local_category d) ≡ true)

abbrev pub Found : List (ℕ → Category) → ℕ → State → Type 0
Found [] d t = Unit {0}
Found (f ∷ fs) d t = HasFound f d t × Found fs d t

-- No filter finds the bit on any node.
abbrev pub FoundNowhere : List (ℕ → Category) → Enumerator → Type 0
FoundNowhere [] b = Unit {0}
FoundNowhere (f ∷ fs) b = ((x : ℕ) → has b (f x) ≡ false) × FoundNowhere fs b

-- What the filters do to the categories, where they are passed over and where they are not.
abbrev pub FilteredFrom : Bool → List (ℕ → Category) → ℕ → State → State → Type 0
FilteredFrom true changes d s t = t ≡ s
FilteredFrom false changes d s t = Found changes d t × StaysAbsent (FoundNowhere changes) s t

pub HasFound-Grows :
    (change : ℕ → Category) (d : ℕ) (s t : State)
    → Grows anything anything s t
    → HasFound change d s
    → HasFound change d t
HasFound-Grows change d s t p h b e = let (i, l) = h b e in (p.inherited d b i, p.own d b l)

or_has : (b : Enumerator) (c k : Category) → has b k ≡ true → has b (category_or c k) ≡ true
or_has b c k h = rw (has-zip_with (λ x y. x || y) b c k, h) (ground arith)

pub added_here :
    (d : ℕ) (k : Category) (s : State)
    → (b : Enumerator) → has b k ≡ true
    → (let t = add_to_local_and_inherited_categories d k s in
        (has b (t.category d) ≡ true) × (has b (t.local_category d) ≡ true))
unfolding add_to_local_and_inherited_categories
added_here d k s b h =
    let same : (d == d) ≡ true = (==_iff d d).1 refl in
    rw same (or_has b (s.category d) k h, or_has b (s.local_category d) k h)

pub is_set-has : (b : Enumerator) (c : Category) → has b c ≡ true → is_set c ≡ true
is_set-has access c h = ground arith
is_set-has compatible_type c h = ground arith
is_set-has harmless_decl_name c h = ground arith
is_set-has non_virt_mem_fun c h = ground arith
is_set-has static_data_member c h = ground arith
is_set-has harmless_enum c h = ground arith
is_set-has harmless_symbol_alias c h = ground arith
is_set-has suppressed c h = ground arith
is_set-has size_or_offset c h = ground arith
is_set-has virtual_member c h = ground arith
is_set-has redundant c h = ground arith
