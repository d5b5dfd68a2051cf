-- ===== src/Changes/Paths.antt =====
-- The script of a path through two sequences, against the sequences.
use cyglibabigail.Base.{
  ℕ, zero, suc, ◌<◌, ◌≤◌, Bool, true, List, [], ◌∷◌, some, ◌≡◌, refl, arith, ℤ, length, get_elem?,
  drop, none, false, inl, inr, same_text, Bool-cases,
}
use cyglibabigail.EditScripts.Edits.{Edits, done, keep, delete, insert, Inserted}
use cyglibabigail.Changes.Maps.{Text}
use cyglibabigail.Changes.Loops.{
  inserted_indexes, Picks, nothing_picked, picked, named, AreDistinct,
}
use cyglibabigail.Changes.Tables.{to_unsigned-pos}
use cyglibabigail.Changes.Agreement.{
  same_at, Deletes, Inserts, edited, Edited, Sided, absent_left, absent_right, agree_keep,
  agree_delete, agree_insert,
}

module _ {E : Type 0} where
  drop_all : (xs : List E) → drop (length xs) xs ≡ []
  drop_all [] = refl
  drop_all (x ∷ xs) = drop_all xs

  -- The elements from an index on, by the first of them.
  drop_next :
      (xs : List E) (i : ℕ)
      → i < length xs
      → (a : E) × (get_elem? xs i ≡ some a) × (drop i xs ≡ a ∷ drop (suc i) xs)
  drop_next [] i h = absurd (omega arith)
  drop_next (x ∷ xs) zero h = (x, refl, refl)
  drop_next (x ∷ xs) (suc i) h = drop_next xs i (omega arith)

pub Edits-bounds :
    {eq : ℕ → ℕ → Bool} {i j k l : ℕ} {is : List Inserted} {ds : List ℤ}
    → Edits eq i j k l is ds
    → (i ≤ k) × (j ≤ l)
Edits-bounds done = (omega arith, omega arith)
Edits-bounds (keep h p) = let (a, b) = Edits-bounds p in (omega arith, omega arith)
Edits-bounds (delete p) = let (a, b) = Edits-bounds p in (omega arith, b)
Edits-bounds (insert p) = let (a, b) = Edits-bounds p in (a, omega arith)

-- An element of the one sequence that is equal to one of the other has its name.
abbrev pub NamedAlike : {E : Type 0} → (E → Text) → (E → E → Bool) → List E → List E → Type 0
NamedAlike {E} name same xs ys =
    (i j : ℕ) (a b : E)
    → get_elem? xs i ≡ some a
    → get_elem? ys j ≡ some b
    → same a b ≡ true
    → name a ≡ name b

module _ {E : Type 0} (name : E → Text) (same : E → E → Bool) (xs ys : List E) where
  distinct_after :
      (zs : List E) (a : E) (rest : List E)
      → zs ≡ a ∷ rest
      → AreDistinct name zs
      → AreDistinct name rest
  unfolding AreDistinct
  distinct_after zs a rest e d = (rw e at d).1

  -- The script of a path through sequences whose elements have distinct names, where those of both
  -- that are equal have the same name.
  pub Edits-Edited :
      NamedAlike name same xs ys
      → length xs ≤ 4294967296
      → {i j k l : ℕ} {is : List Inserted} {ds : List ℤ} → Edits (same_at same xs ys) i j k l is ds
      → k ≡ length xs
      → l ≡ length ys
      → AreDistinct name (drop i xs)
      → AreDistinct name (drop j ys)
      → Edited name same xs ys i j is ds
  unfolding AreDistinct named
  Edits-Edited same_name small done e f u v = record {
    deleted = [];
    inserted = [];
    deletes = nothing_picked;
    inserts = nothing_picked;
    deleted_apart = tt;
    inserted_apart = tt;
    agree = λ k. rw (e, f, drop_all xs, drop_all ys) edited;
  }
  Edits-Edited same_name small {i} {j} (keep h p) e f u v =
      let (in_a, in_b) = Edits-bounds p in
      let (a, at_a, from_a) = drop_next xs i (omega arith) in
      let (b, at_b, from_b) = drop_next ys j (omega arith) in
      let alike : same a b ≡ true = rw (at_a, at_b) at h in
      let r =
        Edits-Edited same_name small p e f (distinct_after (drop i xs) a (drop (suc i) xs) from_a u)
          (distinct_after (drop j ys) b (drop (suc j) ys) from_b v) in
      record {
        deleted = r.deleted;
        inserted = r.inserted;
        deletes = r.deletes;
        inserts = r.inserts;
        deleted_apart = r.deleted_apart;
        inserted_apart = r.inserted_apart;
        agree =
            rw (from_a, from_b)
              (agree_keep name same (drop (suc i) xs) (drop (suc j) ys) r.deleted r.inserted a b
                (same_name i j a b at_a at_b alike) alike (rw from_a at u) (rw from_b at v)
                r.agree);
      }
  Edits-Edited same_name small {i} {j} (delete p) e f u v =
      let (in_a, in_b) = Edits-bounds p in
      let (a, at_a, from_a) = drop_next xs i (omega arith) in
      let r =
        Edits-Edited same_name small p e f (distinct_after (drop i xs) a (drop (suc i) xs) from_a u)
          v in
      let (apart, later) = rw from_a at u in
      record {
        deleted = a ∷ r.deleted;
        inserted = r.inserted;
        deletes = picked (rw (to_unsigned-pos i (omega arith)) at_a) r.deletes;
        inserts = r.inserts;
        deleted_apart = (absent_left name same (r.agree (name a)) apart, r.deleted_apart);
        inserted_apart = r.inserted_apart;
        agree = rw from_a (
            agree_delete name same (drop (suc i) xs) (drop j ys) r.deleted r.inserted a
              (rw from_a at u) r.agree);
      }
  Edits-Edited same_name small {i} {j} (insert p) e f u v =
      let (in_a, in_b) = Edits-bounds p in
      let (b, at_b, from_b) = drop_next ys j (omega arith) in
      let r =
        Edits-Edited same_name small p e f u
          (distinct_after (drop j ys) b (drop (suc j) ys) from_b v) in
      let (apart, later) = rw from_b at v in
      record {
        deleted = r.deleted;
        inserted = b ∷ r.inserted;
        deletes = r.deletes;
        inserts = picked at_b r.inserts;
        deleted_apart = r.deleted_apart;
        inserted_apart = (absent_right name same (r.agree (name b)) apart, r.inserted_apart);
        agree = rw from_b (
            agree_insert name same (drop i xs) (drop (suc j) ys) r.deleted r.inserted b
              (rw from_b at v) r.agree);
      }

  named_after :
      (zs : List E) (k : Text) (a : E) (rest : List E)
      → zs ≡ a ∷ rest
      → named name k zs ≡ none
      → (same_text k (name a) ≡ false) × (named name k rest ≡ none)
  unfolding named
  named_after zs k a rest e h =
      let h' : named name k (a ∷ rest) ≡ none = rw e at h in
      elim (Bool-cases (same_text k (name a))) [
        | inl here ↦ absurd (cc (h', here))
        | inr there ↦ (there, rw there at h')
      ]

  -- The elements that the script of a path edits, whatever the names of those that it keeps.
  pub Edits-Sided :
      length xs ≤ 4294967296
      → {i j k l : ℕ} {is : List Inserted} {ds : List ℤ} → Edits (same_at same xs ys) i j k l is ds
      → k ≡ length xs
      → l ≡ length ys
      → AreDistinct name (drop i xs)
      → AreDistinct name (drop j ys)
      → Sided name xs ys i j is ds
  unfolding AreDistinct named
  Edits-Sided small done e f u v = record {
    deleted = [];
    inserted = [];
    deletes = nothing_picked;
    inserts = nothing_picked;
    deleted_apart = tt;
    inserted_apart = tt;
    of_first = λ k h. refl;
    of_second = λ k h. refl;
  }
  Edits-Sided small {i} {j} (keep h p) e f u v =
      let (in_a, in_b) = Edits-bounds p in
      let (a, at_a, from_a) = drop_next xs i (omega arith) in
      let (b, at_b, from_b) = drop_next ys j (omega arith) in
      let r =
        Edits-Sided small p e f (distinct_after (drop i xs) a (drop (suc i) xs) from_a u)
          (distinct_after (drop j ys) b (drop (suc j) ys) from_b v) in
      record {
        deleted = r.deleted;
        inserted = r.inserted;
        deletes = r.deletes;
        inserts = r.inserts;
        deleted_apart = r.deleted_apart;
        inserted_apart = r.inserted_apart;
        of_first = λ k g. r.of_first k (named_after (drop i xs) k a (drop (suc i) xs) from_a g).1;
        of_second = λ k g. r.of_second k (named_after (drop j ys) k b (drop (suc j) ys) from_b g).1;
      }
  Edits-Sided small {i} {j} (delete p) e f u v =
      let (in_a, in_b) = Edits-bounds p in
      let (a, at_a, from_a) = drop_next xs i (omega arith) in
      let r = Edits-Sided small p e f (distinct_after (drop i xs) a (drop (suc i) xs) from_a u) v in
      let (apart, later) = rw from_a at u in
      record {
        deleted = a ∷ r.deleted;
        inserted = r.inserted;
        deletes = picked (rw (to_unsigned-pos i (omega arith)) at_a) r.deletes;
        inserts = r.inserts;
        deleted_apart = (r.of_first (name a) apart, r.deleted_apart);
        inserted_apart = r.inserted_apart;
        of_first = λ k g.
            let (other, rest) = named_after (drop i xs) k a (drop (suc i) xs) from_a g in
            rw other (r.of_first k rest);
        of_second = r.of_second;
      }
  Edits-Sided small {i} {j} (insert p) e f u v =
      let (in_a, in_b) = Edits-bounds p in
      let (b, at_b, from_b) = drop_next ys j (omega arith) in
      let r = Edits-Sided small p e f u (distinct_after (drop j ys) b (drop (suc j) ys) from_b v) in
      let (apart, later) = rw from_b at v in
      record {
        deleted = r.deleted;
        inserted = b ∷ r.inserted;
        deletes = r.deletes;
        inserts = picked at_b r.inserts;
        deleted_apart = r.deleted_apart;
        inserted_apart = (r.of_second (name b) apart, r.inserted_apart);
        of_first = r.of_first;
        of_second = λ k g.
            let (other, rest) = named_after (drop j ys) k b (drop (suc j) ys) from_b g in
            rw other (r.of_second k rest);
      }

  -- The indexes of a path are in range.
  pub Edits-Picks :
      length xs ≤ 4294967296
      → {i j k l : ℕ} {is : List Inserted} {ds : List ℤ} → Edits (same_at same xs ys) i j k l is ds
      → k ≡ length xs
      → l ≡ length ys
      → (gones : List E) × (news : List E) × Picks (Deletes xs) ds gones
        × Picks (Inserts ys) (inserted_indexes is) news
  Edits-Picks small done e f = ([], [], nothing_picked, nothing_picked)
  Edits-Picks small (keep h p) e f = Edits-Picks small p e f
  Edits-Picks small {i} (delete p) e f =
      let (in_a, in_b) = Edits-bounds p in
      let (a, at_a, from_a) = drop_next xs i (omega arith) in
      let (gones, news, picks, picks') = Edits-Picks small p e f in
      (a ∷ gones, news, picked (rw (to_unsigned-pos i (omega arith)) at_a) picks, picks')
  Edits-Picks small {i} {j} (insert p) e f =
      let (in_a, in_b) = Edits-bounds p in
      let (b, at_b, from_b) = drop_next ys j (omega arith) in
      let (gones, news, picks, picks') = Edits-Picks small p e f in
      (gones, b ∷ news, picks, picked at_b picks')
