-- ===== src/EditScripts/Scripts.antt =====
-- `insertion`, `deletion` and `edit_script` of `include/abg-diff-utils.h`.
use cyglibabigail.Base.{ℕ, ◌+◌, List, [], ◌∷◌, ◌++◌, ℤ, length}

pub record Insertion : Type 0 where
  pub insertion_point_index : ℤ
  pub inserted_indexes : List ℕ

-- A deletion is the index of the element.
pub record EditScript : Type 0 where
  pub insertions : List Insertion
  pub deletions : List ℤ

-- `edit_script::edit_script`, which `edit_script::clear` goes back to
abbrev pub empty_script : EditScript
empty_script = record { insertions = []; deletions = [] }

unfoldable pub append : EditScript → EditScript → EditScript
append s es = record {
  insertions = s.insertions ++ es.insertions;
  deletions = s.deletions ++ es.deletions;
}

unfoldable pub prepend : EditScript → EditScript → EditScript
prepend s es = record {
  insertions = es.insertions ++ s.insertions;
  deletions = es.deletions ++ s.deletions;
}

-- The loop of `edit_script::num_insertions`.
unfoldable pub count_inserted : List Insertion → ℕ
count_inserted [] = 0
count_inserted (i ∷ is) = length i.inserted_indexes + count_inserted is

abbrev pub num_insertions : EditScript → ℕ
num_insertions s = count_inserted s.insertions

abbrev pub num_deletions : EditScript → ℕ
num_deletions s = length s.deletions

abbrev pub script_length : EditScript → ℕ
script_length s = num_insertions s + num_deletions s
