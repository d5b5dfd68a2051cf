-- ===== src/EditScripts/Edits.antt =====
-- What an edit script of `include/abg-diff-utils.h` is to say: the insertions and deletions on a path
-- through the elements of both sequences, which else keeps elements that are equal.
use cyglibabigail.Base.{
  ℕ, zero, suc, ◌+◌, ◌≤◌, Bool, true, List, [], ◌∷◌, ◌++◌, length, append_assoc, ◌≡◌, refl, sym, ap,
  ◌∙◌, arith, Bool-cases, inl, inr, ℤ, pos, sub_ℕ,
}
use mathlib.Core.Path.{subst}
use cyglibabigail.EditScripts.Scripts.{Insertion, count_inserted}
use cyglibabigail.EditScripts.Compute.{indexes, delete_all}
use cyglibabigail.EditScripts.Distance.{dist, dist_zero, dist_zero_left, dist-match, dist-mismatch}
use cyglibabigail.EditScripts.Follow.{Run}

-- An inserted element of the second sequence, after the one of the first at the index.
abbrev pub Inserted : Type 0
Inserted = ℤ × ℕ

abbrev pub inserted_at : ℤ → List ℕ → List Inserted
inserted_at p [] = []
inserted_at p (j ∷ js) = (p, j) ∷ inserted_at p js

unfoldable pub all_inserted : List Insertion → List Inserted
all_inserted [] = []
all_inserted (i ∷ is) = inserted_at i.insertion_point_index i.inserted_indexes ++ all_inserted is

pub all_inserted-++ :
    (is js : List Insertion) → all_inserted (is ++ js) ≡ all_inserted is ++ all_inserted js
unfolding all_inserted
all_inserted-++ [] js = refl
all_inserted-++ (i ∷ is) js =
    ap (λ z. inserted_at i.insertion_point_index i.inserted_indexes ++ z) (all_inserted-++ is js)
    ∙ sym (
        append_assoc (inserted_at i.insertion_point_index i.inserted_indexes) (all_inserted is)
          (all_inserted js))

pub count_inserted-++ :
    (is js : List Insertion) → count_inserted (is ++ js) ≡ count_inserted is + count_inserted js
unfolding count_inserted
count_inserted-++ [] js = omega arith
count_inserted-++ (i ∷ is) js = omega (arith, count_inserted-++ is js)

pub length-delete_all : (n i : ℕ) → length (delete_all n i) ≡ n
length-delete_all zero i = refl
length-delete_all (suc n) i = ap suc (length-delete_all n (suc i))

pub length-indexes : (n i : ℕ) → length (indexes n i) ≡ n
length-indexes zero i = refl
length-indexes (suc n) i = ap suc (length-indexes n (suc i))

module _ (eq : ℕ → ℕ → Bool) where
  -- A path from the elements `i` and `j` to `k` and `l`, with its insertions and deletions.
  pub data Edits : (i j k l : ℕ) → List Inserted → List ℤ → Type 0 where
    done : {i j : ℕ} → Edits i j i j [] []
    keep :
        {i j k l : ℕ} {is : List Inserted} {ds : List ℤ}
        → eq i j ≡ true
        → Edits (suc i) (suc j) k l is ds
        → Edits i j k l is ds
    delete :
        {i j k l : ℕ} {is : List Inserted} {ds : List ℤ}
        → Edits (suc i) j k l is ds
        → Edits i j k l is (pos i ∷ ds)
    insert :
        {i j k l : ℕ} {is : List Inserted} {ds : List ℤ}
        → Edits i (suc j) k l is ds
        → Edits i j k l ((sub_ℕ i 1, j) ∷ is) ds

  pub Edits-++ :
      {i j k l m n : ℕ} {is is' : List Inserted} {ds ds' : List ℤ}
      → Edits i j k l is ds
      → Edits k l m n is' ds'
      → Edits i j m n (is ++ is') (ds ++ ds')
  Edits-++ done q = q
  Edits-++ (keep h p) q = keep h (Edits-++ p q)
  Edits-++ (delete p) q = delete (Edits-++ p q)
  Edits-++ (insert p) q = insert (Edits-++ p q)

  -- A path by the numbers that its ends are.
  pub Edits-at :
      {i j k l : ℕ} {is : List Inserted} {ds : List ℤ} (k' l' : ℕ)
      → k ≡ k'
      → l ≡ l'
      → Edits i j k l is ds
      → Edits i j k' l' is ds
  Edits-at {i} {j} {k} {l} {is} {ds} k' l' e f p =
      subst (λ u. Edits i j u l' is ds) e (subst (λ u. Edits i j k u is ds) f p)

  pub Edits-delete_all : (n i j : ℕ) → Edits i j (i + n) j [] (delete_all n i)
  Edits-delete_all zero i j = Edits-at (i + 0) j (omega arith) refl done
  Edits-delete_all (suc n) i j =
      Edits-at (i + suc n) j (omega arith) refl (delete (Edits-delete_all n (suc i) j))

  pub Edits-inserted_at :
      (n i j : ℕ) → Edits i j i (j + n) (inserted_at (sub_ℕ i 1) (indexes n j)) []
  Edits-inserted_at zero i j = Edits-at i (j + 0) refl (omega arith) done
  Edits-inserted_at (suc n) i j =
      Edits-at i (j + suc n) refl (omega arith) (insert (Edits-inserted_at n i (suc j)))

  -- The elements of two ranges that are equal.
  abbrev pub range : ℕ → ℕ → ℕ → ℕ → Bool
  range x y i j = eq (x + i) (y + j)

  -- Matches in a row are kept.
  pub Edits-Run :
      (x y i j r : ℕ)
      → Run (range x y) i j r
      → Edits (x + i) (y + j) (x + (r + i)) (y + (r + j)) [] []
  Edits-Run x y i j zero h = Edits-at (x + (0 + i)) (y + (0 + j)) (omega arith) (omega arith) done
  Edits-Run x y i j (suc r) h =
      let p : x + suc i ≡ suc (x + i) = omega arith in
      let q : y + suc j ≡ suc (y + j) = omega arith in
      keep h.0 (
        rw (sym p, sym q)
          (Edits-at (x + (suc r + i)) (y + (suc r + j)) (omega arith) (omega arith)
            (Edits-Run x y (suc i) (suc j) r h.1)))

  -- At the distance 0 all are kept.
  pub Edits-zero : (x y i j : ℕ) → dist (range x y) i j ≤ 0 → Edits x y (x + i) (y + j) [] []
  Edits-zero x y zero j h =
      Edits-at (x + 0) (y + j) (omega arith) (omega (arith, dist_zero_left (range x y) j)) done
  Edits-zero x y (suc i) zero h = absurd (omega (arith, dist_zero (range x y) (suc i)))
  Edits-zero x y (suc i) (suc j) h = elim (Bool-cases (range x y i j)) [
    | inl match ↦ Edits-at (x + suc i) (y + suc j) (omega arith) (omega arith) (
        Edits-++ (Edits-zero x y i j (omega (arith, dist-match (range x y) i j match)))
          (keep match done))
    | inr mismatch ↦ absurd (omega (arith, dist-mismatch (range x y) i j mismatch))
  ]
