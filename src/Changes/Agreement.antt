-- ===== src/Changes/Agreement.antt =====
-- How the elements that an edit script deletes and inserts go with two sequences, by name.
use cyglibabigail.Base.{
  ℕ, Bool, true, false, List, ◌∷◌, Option, none, some, same_text, same_text-eq, ◌≡◌, refl,
  Bool-cases, inl, inr, ℤ, get_elem?, drop,
}
use cyglibabigail.EditScripts.Edits.{Inserted}
use cyglibabigail.Changes.Maps.{Text}
use cyglibabigail.Changes.Loops.{inserted_indexes, Picks, named, AreDistinct}
use cyglibabigail.Changes.Tables.{to_unsigned}

module _ {E : Type 0} where
  abbrev same_elements : (E → E → Bool) → Option E → Option E → Bool
  same_elements same (some a) (some b) = same a b
  same_elements same _ _ = false

  -- Which elements of two sequences are the same
  abbrev pub same_at : (E → E → Bool) → List E → List E → ℕ → ℕ → Bool
  same_at same xs ys i j = same_elements same (get_elem? xs i) (get_elem? ys j)

  abbrev pub Deletes : List E → ℤ → E → Type 0
  Deletes xs d e = get_elem? xs (to_unsigned d) ≡ some e

  abbrev pub Inserts : List E → ℕ → E → Type 0
  Inserts ys i e = get_elem? ys i ≡ some e

-- The elements that a script deletes of one sequence from `i` on and inserts of another from `j` on,
-- no two of a kind of the same name.
pub record Sided {E : Type 0} (name : E → Text) (xs ys : List E) (i j : ℕ) (is : List Inserted)
    (ds : List ℤ) : Type 0 where
  pub deleted : List E
  pub inserted : List E
  pub deletes : Picks (Deletes xs) ds deleted
  pub inserts : Picks (Inserts ys) (inserted_indexes is) inserted
  pub deleted_apart : AreDistinct name deleted
  pub inserted_apart : AreDistinct name inserted
  pub of_first : (k : Text) → named name k (drop i xs) ≡ none → named name k deleted ≡ none
  pub of_second : (k : Text) → named name k (drop j ys) ≡ none → named name k inserted ≡ none

module _ {E : Type 0} (name : E → Text) (same : E → E → Bool) where
  -- What both sequences, the deleted elements and the inserted elements have at a name: the same
  -- element is kept, or all that the sequences have is edited.
  pub data Agree : Option E → Option E → Option E → Option E → Type 0 where
    kept : {a b : E} → same a b ≡ true → Agree (some a) (some b) none none
    edited : {o p : Option E} → Agree o p o p

  pub record Edited (xs ys : List E) (i j : ℕ) (is : List Inserted) (ds : List ℤ) : Type 0 where
    pub deleted : List E
    pub inserted : List E
    pub deletes : Picks (Deletes xs) ds deleted
    pub inserts : Picks (Inserts ys) (inserted_indexes is) inserted
    pub deleted_apart : AreDistinct name deleted
    pub inserted_apart : AreDistinct name inserted
    pub agree :
        (k : Text)
        → Agree
            (named name k (drop i xs))
            (named name k (drop j ys))
            (named name k deleted)
            (named name k inserted)

  same_rest :
      {q r : Option E} {a b : E}
      → same a b ≡ true
      → Agree none none q r
      → Agree (some a) (some b) q r
  same_rest h edited = kept h

  deleted_first : {p q r : Option E} (a : E) → Agree none p q r → Agree (some a) p (some a) r
  deleted_first a edited = edited

  inserted_first : {o q r : Option E} (b : E) → Agree o none q r → Agree o (some b) q (some b)
  inserted_first b edited = edited

  pub absent_left : {o p q r : Option E} → Agree o p q r → o ≡ none → q ≡ none
  absent_left (kept h) e = refl
  absent_left edited e = e

  pub absent_right : {o p q r : Option E} → Agree o p q r → p ≡ none → r ≡ none
  absent_right (kept h) e = refl
  absent_right edited e = e

  abbrev pub sided :
      {xs ys : List E} {i j : ℕ} {is : List Inserted} {ds : List ℤ}
      → Edited xs ys i j is ds
      → Sided name xs ys i j is ds
  sided r = record {
    deleted = r.deleted;
    inserted = r.inserted;
    deletes = r.deletes;
    inserts = r.inserts;
    deleted_apart = r.deleted_apart;
    inserted_apart = r.inserted_apart;
    of_first = λ k h. absent_left (r.agree k) h;
    of_second = λ k h. absent_right (r.agree k) h;
  }

  module _ (X Y D I : List E) where
    abbrev AgreeOn : List E → List E → List E → List E → Type 0
    AgreeOn X Y D I =
        (k : Text) → Agree (named name k X) (named name k Y) (named name k D) (named name k I)

    pub agree_keep :
        (a b : E)
        → name a ≡ name b
        → same a b ≡ true
        → AreDistinct name (a ∷ X)
        → AreDistinct name (b ∷ Y)
        → AgreeOn X Y D I
        → AgreeOn (a ∷ X) (b ∷ Y) D I
    unfolding AreDistinct named
    agree_keep a b e h u v g k = elim (Bool-cases (same_text k (name a))) [
      | inl here ↦
          let at_a = same_text-eq k (name a) here in
          let there : same_text k (name b) ≡ true = rw e at here in
          let no_x : named name k X ≡ none = rw at_a u.0 in
          let no_y : named name k Y ≡ none = rw (at_a, e) v.0 in
          let r : Agree none none (named name k D) (named name k I) = rw (no_x, no_y) at (g k) in
          rw (here, there) (same_rest h r)
      | inr other ↦
          let elsewhere : same_text k (name b) ≡ false = rw e at other in
          rw (other, elsewhere) (g k)
    ]

    pub agree_delete :
        (a : E) → AreDistinct name (a ∷ X) → AgreeOn X Y D I → AgreeOn (a ∷ X) Y (a ∷ D) I
    unfolding AreDistinct named
    agree_delete a u g k = elim (Bool-cases (same_text k (name a))) [
      | inl here ↦
          let no_x : named name k X ≡ none = rw (same_text-eq k (name a) here) u.0 in
          let r : Agree none (named name k Y) (named name k D) (named name k I) =
            rw no_x at (g k) in
          rw here (deleted_first a r)
      | inr other ↦ rw other (g k)
    ]

    pub agree_insert :
        (b : E) → AreDistinct name (b ∷ Y) → AgreeOn X Y D I → AgreeOn X (b ∷ Y) D (b ∷ I)
    unfolding AreDistinct named
    agree_insert b v g k = elim (Bool-cases (same_text k (name b))) [
      | inl here ↦
          let no_y : named name k Y ≡ none = rw (same_text-eq k (name b) here) v.0 in
          let r : Agree (named name k X) none (named name k D) (named name k I) =
            rw no_y at (g k) in
          rw here (inserted_first b r)
      | inr other ↦ rw other (g k)
    ]
