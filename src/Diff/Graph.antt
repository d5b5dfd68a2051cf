-- ===== src/Diff/Graph.antt =====
-- The diff nodes of `src/abg-comparison.cc` as a store, and the members of `diff` and
-- `diff_context` that the walks over them read and write.
use cyglibabigail.Base.{
  ℕ, Bool, true, false, not, ◌&&◌, List, Option, none, some, ◌==◌, if◌then◌else◌, Outcome, returned,
  aborted,
}
use cyglibabigail.Diff.Category.{Category, Settings, category_or, is_filtered_out}

-- What the walks leave alone. A node is a number, and stands for the address of a `diff`.
pub record Diffs : Type 0 where
  -- `children_nodes()`, once `finish_diff_type()` has made them
  pub children_nodes : ℕ → List ℕ
  pub parent_node : ℕ → Option ℕ
  pub canonical_diff : ℕ → Option ℕ
  pub has_changes : ℕ → Bool
  pub has_local_changes : ℕ → Bool
  -- `get_type_diff()` of a `fn_parm_diff`, and `none` for the other classes
  pub fn_parm_type_diff : ℕ → Option ℕ
  -- the node is a `function_type_diff`
  pub is_function_type_diff : ℕ → Bool
  -- `is_diff_of_variadic_parameter(d)`, or the same of its type
  pub is_variadic : ℕ → Bool
  -- `suppresses_diff` of each suppression of the context
  pub suppressions : List (ℕ → Bool)
  pub settings : Settings

-- What they change: members of the nodes, of the context, and of the visitor.
pub record State : Type 0 where
  pub traversing : ℕ → Bool
  pub local_category : ℕ → Category
  pub category : ℕ → Category
  -- `visited_diff_nodes_`
  pub visited : ℕ → Bool
  pub forbid_visiting_a_node_twice : Bool
  -- the two bits of `visiting_kind_`
  pub skip_children_visiting : Bool
  pub do_not_mark_visited : Bool
  -- `redundancy_marking_visitor::skip_children_nodes_`
  pub skip_children_nodes : Bool

abbrev pub update {ℓ} : {A : Type ℓ} → (ℕ → A) → ℕ → A → ℕ → A
update f k v j = if j == k then v else f j

module _ (g : Diffs) where
  -- `diff_context::diff_has_been_visited`
  unfoldable pub diff_has_been_visited : ℕ → State → Outcome Bool
  diff_has_been_visited d s = elim (g.canonical_diff d) [
    | none ↦ aborted
    | some c ↦ returned (s.visited c)
  ]

  -- `diff_context::mark_diff_as_visited`
  unfoldable pub mark_diff_as_visited : ℕ → State → Outcome State
  mark_diff_as_visited d s = elim (g.canonical_diff d) [
    | none ↦ aborted
    | some c ↦ returned (record s { visited = update s.visited c true })
  ]

  -- The node whose flag `is_traversing` reads.
  abbrev pub traversing_node : ℕ → ℕ
  traversing_node d = elim (g.canonical_diff d) [ none ↦ d | some c ↦ c ]

  unfoldable pub is_traversing : ℕ → State → Bool
  is_traversing d s = s.traversing (traversing_node d)

  abbrev pub set_traversing : Bool → ℕ → State → State
  set_traversing b d s = record s {
    traversing = update (update s.traversing (traversing_node d) b) d b;
  }

  unfoldable pub begin_traversing : ℕ → State → Outcome State
  begin_traversing d s =
      if not (is_traversing d s) then returned (set_traversing true d s) else aborted

  unfoldable pub end_traversing : ℕ → State → Outcome State
  end_traversing d s = if is_traversing d s then returned (set_traversing false d s) else aborted

  -- `diff::is_filtered_out`, `diff::to_be_reported`, and the two on the node's own category
  unfoldable pub to_be_reported : ℕ → State → Bool
  to_be_reported d s = g.has_changes d && not (is_filtered_out g.settings (s.category d))

  unfoldable pub has_local_changes_to_be_reported : ℕ → State → Bool
  has_local_changes_to_be_reported d s =
      g.has_local_changes d && not (is_filtered_out g.settings (s.local_category d))

-- `diff::add_to_category`, `diff::add_to_local_category`
abbrev pub add_to_category : ℕ → Category → State → State
add_to_category d c s = record s { category = update s.category d (category_or (s.category d) c) }

abbrev pub add_to_local_category : ℕ → Category → State → State
add_to_local_category d c s = record s {
  local_category = update s.local_category d (category_or (s.local_category d) c);
}

unfoldable pub add_to_local_and_inherited_categories : ℕ → Category → State → State
add_to_local_and_inherited_categories d c s = add_to_category d c (add_to_local_category d c s)
