-- ===== src/Diff/Grows.antt =====
-- How a pass may change the categories of the diff nodes: bit by bit.
use cyglibabigail.Base.{
  ℕ, Bool, true, false, ◌||◌, ◌==◌, ◌≡◌, refl, ◌∙◌, arith, Bool-cases, ==_iff, inl, inr,
}
use cyglibabigail.Diff.Category.{Category, zip_with, category_or}
use cyglibabigail.Diff.Graph.{State, update, add_to_category, add_to_local_and_inherited_categories}

-- The enumerators of `diff_category` with one bit.
pub data Enumerator : Type 0 where
  access compatible_type harmless_decl_name non_virt_mem_fun static_data_member : Enumerator
  harmless_enum harmless_symbol_alias suppressed size_or_offset virtual_member redundant :
      Enumerator

abbrev pub has : Enumerator → Category → Bool
has access c = c.access
has compatible_type c = c.compatible_type
has harmless_decl_name c = c.harmless_decl_name
has non_virt_mem_fun c = c.non_virt_mem_fun
has static_data_member c = c.static_data_member
has harmless_enum c = c.harmless_enum
has harmless_symbol_alias c = c.harmless_symbol_alias
has suppressed c = c.suppressed
has size_or_offset c = c.size_or_offset
has virtual_member c = c.virtual_member
has redundant c = c.redundant

pub has-zip_with :
    (f : Bool → Bool → Bool) (b : Enumerator) (c d : Category)
    → has b (zip_with f c d) ≡ f (has b c) (has b d)
has-zip_with f access c d = refl
has-zip_with f compatible_type c d = refl
has-zip_with f harmless_decl_name c d = refl
has-zip_with f non_virt_mem_fun c d = refl
has-zip_with f static_data_member c d = refl
has-zip_with f harmless_enum c d = refl
has-zip_with f harmless_symbol_alias c d = refl
has-zip_with f suppressed c d = refl
has-zip_with f size_or_offset c d = refl
has-zip_with f virtual_member c d = refl
has-zip_with f redundant c d = refl

-- A set of enumerators; the sets that the passes add.
abbrev pub only_suppressed : Enumerator → Bool
only_suppressed suppressed = true
only_suppressed _ = false

abbrev pub only_redundant : Enumerator → Bool
only_redundant redundant = true
only_redundant _ = false

abbrev pub neither : Enumerator → Bool
neither suppressed = false
neither redundant = false
neither _ = true

abbrev pub nothing : Enumerator → Bool
nothing access = false
nothing _ = false

abbrev pub anything : Enumerator → Bool
anything b = true

-- A bit that may be added is kept where it is set; another is as before.
abbrev pub BitGrows : Bool → Bool → Bool → Type 0
BitGrows true p q = p ≡ true → q ≡ true
BitGrows false p q = q ≡ p

abbrev pub CategoryGrows : (Enumerator → Bool) → Category → Category → Type 0
CategoryGrows may c d = (b : Enumerator) → BitGrows (may b) (has b c) (has b d)

-- From `s` to `t` the categories gain at most the bits of `may`, and the nodes' own categories at
-- most those of `may_local`; no bit is lost.
pub record Grows (may may_local : Enumerator → Bool) (s t : State) : Type 0 where
  pub inherited : (x : ℕ) → CategoryGrows may (s.category x) (t.category x)
  pub own : (x : ℕ) → CategoryGrows may_local (s.local_category x) (t.local_category x)

BitGrows-refl : (m p : Bool) → BitGrows m p p
BitGrows-refl true p = λ h. h
BitGrows-refl false p = refl

BitGrows-trans : (m p q r : Bool) → BitGrows m p q → BitGrows m q r → BitGrows m p r
BitGrows-trans true p q r h k = λ x. k (h x)
BitGrows-trans false p q r h k = k ∙ h

-- The bits of `c` are in the set.
abbrev pub Within : (Enumerator → Bool) → Category → Type 0
Within may c = (b : Enumerator) → may b ≡ false → has b c ≡ false

BitGrows-or : (m p q : Bool) → (m ≡ false → q ≡ false) → BitGrows m p (p || q)
BitGrows-or true p q h = ground arith
BitGrows-or false p q h = ground (arith, h refl)

CategoryGrows-or :
    (may : Enumerator → Bool) (c k : Category)
    → Within may k
    → CategoryGrows may c (category_or c k)
CategoryGrows-or may c k w b =
    rw (has-zip_with (λ x y. x || y) b c k) (BitGrows-or (may b) (has b c) (has b k) (w b))

update-Grows :
    (m : Enumerator → Bool) (f : ℕ → Category) (d x : ℕ) (k : Category)
    → Within m k
    → CategoryGrows m (f x) (update f d (category_or (f d) k) x)
update-Grows m f d x k w b = elim (Bool-cases (x == d)) [
  | inl same ↦ rw same (rw ((==_iff x d).0 same) (CategoryGrows-or m (f d) k w b))
  | inr other ↦ rw other (BitGrows-refl (m b) _)
]

module _ (may may_local : Enumerator → Bool) where
  pub Grows-refl : (s : State) → Grows may may_local s s
  Grows-refl s = record {
    inherited = λ x b. BitGrows-refl (may b) _;
    own = λ x b. BitGrows-refl (may_local b) _;
  }

  pub Grows-trans :
      (s t u : State) → Grows may may_local s t → Grows may may_local t u → Grows may may_local s u
  Grows-trans s t u h k = record {
    inherited = λ x b. BitGrows-trans (may b) _ _ _ (h.inherited x b) (k.inherited x b);
    own = λ x b. BitGrows-trans (may_local b) _ _ _ (h.own x b) (k.own x b);
  }

  -- The same categories.
  pub Grows-same :
      (s t : State)
      → t.category ≡ s.category
      → t.local_category ≡ s.local_category
      → Grows may may_local s t
  Grows-same s t p q = record {
    inherited = λ x b. rw p (BitGrows-refl (may b) _);
    own = λ x b. rw q (BitGrows-refl (may_local b) _);
  }

  pub add_to_category-Grows :
      (d : ℕ) (k : Category) (s : State)
      → Within may k
      → Grows may may_local s (add_to_category d k s)
  add_to_category-Grows d k s w = record {
    inherited = λ x. update-Grows may s.category d x k w;
    own = λ x b. BitGrows-refl (may_local b) _;
  }

  pub add_to_local_and_inherited_categories-Grows :
      (d : ℕ) (k : Category) (s : State)
      → Within may k
      → Within may_local k
      → Grows may may_local s (add_to_local_and_inherited_categories d k s)
  unfolding add_to_local_and_inherited_categories
  add_to_local_and_inherited_categories-Grows d k s w l = record {
    inherited = λ x. update-Grows may s.category d x k w;
    own = λ x. update-Grows may_local s.local_category d x k l;
  }
