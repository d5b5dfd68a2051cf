-- ===== src/Changes/Enums.antt =====
-- `enum_diff` of `src/abg-comparison.cc`: the lookup tables of the enumerators of two enums.
use cyglibabigail.Base.{
  ℕ, ◌+◌, ◌<◌, ◌≤◌, Bool, true, ◌&&◌, List, [], if◌then◌else◌, ◌==◌, ◌≡◌, refl, inl, inr, ℤ,
  Outcome, returned, ◌>>=◌, length, get_elem?, same_text, same_text-eq, arith, Bool-cases,
}
use cyglibabigail.EditScripts.Scripts.{EditScript, empty_script}
use cyglibabigail.EditScripts.Compute.{compute_diff}
use cyglibabigail.EditScripts.DiffLaws.{compute_diff-Diffs}
use cyglibabigail.Changes.Maps.{Text, find}
use cyglibabigail.Changes.Loops.{
  element_of, assert_none, for_each, for_each_inserted, named, AreDistinct, Acts,
}
use cyglibabigail.Changes.Tables.{
  Tables, empty_tables, is_empty_map, to_unsigned, view, add_deleted, deleted_view, add_inserted,
  inserted_view, view-add_deleted, view-add_inserted,
}
use cyglibabigail.Changes.Agreement.{same_at, Deletes, Inserts}
use cyglibabigail.Changes.Paths.{Edits-Edited}
use cyglibabigail.Changes.Populated.{difference, NotDeleted, NotInserted, walked}

-- `enum_type_decl::enumerator`
pub record Enumerator : Type 0 where
  pub name : Text
  pub value : ℕ

-- `enumerator::operator==`
unfoldable pub same_enumerator : Enumerator → Enumerator → Bool
same_enumerator n other = same_text n.name other.name && n.value == other.value

unfoldable pub clear_lookup_tables : Tables Enumerator → Tables Enumerator
clear_lookup_tables t = record { deleted = []; inserted = []; changed = [] }

unfoldable pub lookup_tables_empty : Tables Enumerator → Bool
lookup_tables_empty t = is_empty_map t.deleted && is_empty_map t.inserted && is_empty_map t.changed

abbrev pub enumerator_name : Enumerator → Text
enumerator_name n = n.name

-- The body of the loop over the deletions. An index out of range, undefined in the source, aborts.
unfoldable pub delete_enumerator :
    List Enumerator → ℤ → Tables Enumerator → Outcome (Tables Enumerator)
delete_enumerator xs d t = do
  n ← element_of (get_elem? xs (to_unsigned d))
  _ ← assert_none (find n.name t.deleted)
  returned (add_deleted enumerator_name n t)

-- The body of the loops over the insertions
unfoldable pub insert_enumerator :
    List Enumerator → ℕ → Tables Enumerator → Outcome (Tables Enumerator)
insert_enumerator ys i t = do
  n ← element_of (get_elem? ys i)
  _ ← assert_none (find n.name t.inserted)
  returned (add_inserted enumerator_name same_enumerator n t)

unfoldable pub ensure_lookup_tables_populated :
    List Enumerator → List Enumerator → EditScript → Tables Enumerator → Outcome (Tables Enumerator)
ensure_lookup_tables_populated xs ys e t =
    if lookup_tables_empty t
    then for_each (delete_enumerator xs) e.deletions t
      >>= (λ u. for_each_inserted (insert_enumerator ys) e.insertions u)
    else returned t

-- `compute_diff` of two enums with these enumerators: the tables of the new `enum_diff`. The number
-- bounds the recursion of `diff_utils::compute_diff`.
unfoldable pub compute_enum_diff :
    ℕ → List Enumerator → List Enumerator → Outcome (Tables Enumerator)
compute_enum_diff n xs ys = do
  d ← compute_diff (same_at same_enumerator xs ys) n 0 (length xs) 0 (length ys) [] empty_script
  ensure_lookup_tables_populated xs ys d.ses empty_tables

delete_enumerator-Acts :
    (xs : List Enumerator)
    → Acts enumerator_name
        (Deletes xs)
        view
        (delete_enumerator xs)
        (deleted_view enumerator_name)
        NotDeleted
        (λ t. Unit {0})
unfolding delete_enumerator view
delete_enumerator-Acts xs d n t at ready good = (
  add_deleted enumerator_name n t,
  rw (at, ready) refl,
  tt,
  λ k. view-add_deleted enumerator_name n t k,
)

insert_enumerator-Acts :
    (ys : List Enumerator)
    → Acts enumerator_name
        (Inserts ys)
        view
        (insert_enumerator ys)
        (inserted_view enumerator_name same_enumerator)
        NotInserted
        (λ t. Unit {0})
unfolding insert_enumerator view
insert_enumerator-Acts ys i n t at ready good = (
  add_inserted enumerator_name same_enumerator n t,
  rw (at, ready) refl,
  tt,
  λ k. view-add_inserted enumerator_name same_enumerator n t k,
)

same_enumerator_name : (a b : Enumerator) → same_enumerator a b ≡ true → a.name ≡ b.name
unfolding same_enumerator
same_enumerator_name a b h = elim (Bool-cases (same_text a.name b.name)) [
  | inl here ↦ same_text-eq a.name b.name here
  | inr there ↦ absurd (cc (h, there))
]

-- On enumerators with distinct names in each enum, at most 2 ^ 32 in the first, and with a recursion
-- deeper than both counts together, `compute_diff` of enums returns with no assertion failing. The
-- tables it leaves have, at each name, as deleted the enumerator of the first enum where the second
-- has none, as inserted that of the second where the first has none, and as changed the two of that
-- name where they differ.
pub compute_enum_diff-difference :
    (n : ℕ) (xs ys : List Enumerator)
    → AreDistinct enumerator_name xs
    → AreDistinct enumerator_name ys
    → length xs ≤ 4294967296
    → length xs + length ys < n
    → (t : Tables Enumerator) × (compute_enum_diff n xs ys ≡ returned t)
      × ((k : Text)
          → view k t
            ≡ difference same_enumerator (named enumerator_name k xs) (named enumerator_name k ys))
unfolding compute_enum_diff ensure_lookup_tables_populated lookup_tables_empty
compute_enum_diff-difference n xs ys u v small h =
    let eq = same_at same_enumerator xs ys in
    let p : 0 + length xs ≡ length xs = omega arith in
    let q : 0 + length ys ≡ length ys = omega arith in
    let d = compute_diff-Diffs eq n 0 (length xs) 0 (length ys) [] h in
    let r =
      Edits-Edited enumerator_name same_enumerator xs ys
        (λ i j a b _ _ e. same_enumerator_name a b e) small d.scripted.edits p q u v in
    let (t, returns, good, views) =
      walked enumerator_name same_enumerator xs ys d.diff.ses (delete_enumerator xs)
        (insert_enumerator ys) (λ t. Unit {0}) r (delete_enumerator-Acts xs)
        (insert_enumerator-Acts ys) tt in
    let e = rw (p, q) at d.returns in (t, rw e returns, views)
