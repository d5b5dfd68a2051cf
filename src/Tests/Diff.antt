-- ===== src/Tests/Diff.antt =====
-- Runs of the passes over a small graph of diff nodes with a cycle.
use cyglibabigail.Base.{
  ℕ, zero, suc, ◌<◌, Bool, true, false, List, [], ◌∷◌, Option, none, some, ◌==◌, ◌≡◌, ◌↔◌, refl,
  arith, Outcome, returned, Ensures,
}
use cyglibabigail.Diff.Category.{
  Category, Settings, switch_categories_on, everything_category, no_change_category,
  suppressed_category, redundant_category, category_minus, is_filtered_out,
}
use cyglibabigail.Diff.Graph.{
  Diffs, State, diff_has_been_visited, mark_diff_as_visited, is_traversing, begin_traversing,
  end_traversing, to_be_reported, has_local_changes_to_be_reported,
  add_to_local_and_inherited_categories,
}
use cyglibabigail.Diff.Traverse.{
  traverse_children, leave, seen, enter, visit_children, visit_after, traverse_begun, traverse_node,
  traverse,
}
use cyglibabigail.Diff.Traverse.Flags.{AllBelow, IsClosed}
use cyglibabigail.Diff.Visitors.{
  suppresses, suppression_begin, has_changed_child, suppression_end,
  suppression_categorization_visitor, has_equivalent_sibling, redundant_with_sibling_node,
  visited_or_traversing, redundancy_begin, redundancy_end, redundancy_marking_visitor, walk_with,
  propagate_categories, apply_suppressions, categorize_redundancy, clear_redundancy_categorization,
  maybe_apply_filters,
}
use cyglibabigail.Diff.Grows.{neither, nothing, anything, only_suppressed, only_redundant}
use cyglibabigail.Diff.Reported.{
  is_filtered_out-IsReported, IsReported, is_filtered_out-switch_categories_on,
}
use cyglibabigail.Diff.Passes.Adding.{IsIdle, Adds}
use cyglibabigail.Diff.Passes.Propagation.{propagate_categories-Adds}
use cyglibabigail.Diff.Passes.Suppression.{apply_suppressions-Adds}
use cyglibabigail.Diff.Passes.Redundancy.{categorize_redundancy-Adds}
use cyglibabigail.Diff.Passes.Clearing.{Clears, clear_redundancy_categorization-Clears}
use cyglibabigail.Diff.Passes.Found.{FilteredFrom}
use cyglibabigail.Diff.Passes.Filters.{maybe_apply_filters-Finds}

-- Node 0 has the children 1, 2 and 3; node 1 has the child 0; node 2 is equivalent to 1. Node 3
-- has a local change.
abbrev children : ℕ → List ℕ
children zero = 1 ∷ 2 ∷ 3 ∷ []
children (suc zero) = 0 ∷ []
children _ = []

abbrev canonical : ℕ → ℕ
canonical (suc (suc zero)) = 1
canonical d = d

abbrev only : ℕ → ℕ → Bool
only k d = d == k

abbrev pub graph : Diffs
graph = record {
  children_nodes = children;
  parent_node = λ d. none;
  canonical_diff = λ d. some (canonical d);
  has_changes = λ d. true;
  has_local_changes = only 3;
  fn_parm_type_diff = λ d. none;
  is_function_type_diff = λ d. false;
  is_variadic = λ d. false;
  suppressions = only 3 ∷ [];
  settings = record {
    allowed_category = category_minus everything_category redundant_category;
    show_redundant_changes = false;
  };
}

abbrev pub start : State
start = record {
  traversing = λ d. false;
  local_category = λ d. no_change_category;
  category = λ d. no_change_category;
  visited = λ d. false;
  forbid_visiting_a_node_twice = true;
  skip_children_visiting = false;
  do_not_mark_visited = false;
  skip_children_nodes = false;
}

children_below : (d : ℕ) → d < 4 → AllBelow 4 (children d)
children_below zero h = (omega arith, (omega arith, (omega arith, tt)))
children_below (suc zero) h = (omega arith, tt)
children_below (suc (suc d)) h = tt

canonical_below :
    (d : ℕ)
    → d < 4
    → (c : ℕ) × (some (canonical d) ≡ some c) × (c < 4) × (some (canonical c) ≡ some c)
canonical_below zero h = (0, refl, h, refl)
canonical_below (suc zero) h = (1, refl, h, refl)
canonical_below (suc (suc zero)) h = (1, refl, omega arith, refl)
canonical_below (suc (suc (suc d))) h = (suc (suc (suc d)), refl, h, refl)

pub graph-IsClosed : IsClosed graph 4
graph-IsClosed = record { children = children_below; canonical = canonical_below }

propagate_categories-Adds_example :
    Ensures ⊥ (Adds neither nothing start) (propagate_categories graph 5 0 start)
propagate_categories-Adds_example =
    propagate_categories-Adds graph 4 graph-IsClosed 5 0 start (omega arith) (omega arith)
      (λ x. refl)

categorize_redundancy-Adds_example :
    Ensures ⊥ (Adds only_redundant nothing start) (categorize_redundancy graph 5 0 start)
categorize_redundancy-Adds_example =
    categorize_redundancy-Adds graph 4 graph-IsClosed 5 0 start (omega arith) (omega arith)
      (λ x. refl)

apply_suppressions-Adds_example :
    Ensures ⊥
      (λ t.
        Adds only_suppressed only_suppressed start t
        × (suppresses (only 3 ∷ []) 0 ≡ true → (t.category 0).suppressed ≡ true))
      (apply_suppressions graph 5 0 start)
apply_suppressions-Adds_example =
    apply_suppressions-Adds graph 4 graph-IsClosed 5 0 start (omega arith) (omega arith) (λ x. refl)

-- A filter that finds a change of size on each node
abbrev size_found : List (ℕ → Category)
size_found = (λ d. record no_change_category { size_or_offset = true }) ∷ []

maybe_apply_filters-Finds_example :
    Ensures ⊥
      (λ t. Adds anything anything start t × FilteredFrom false size_found 0 start t)
      (maybe_apply_filters graph size_found 5 0 start)
maybe_apply_filters-Finds_example =
    maybe_apply_filters-Finds graph 4 graph-IsClosed size_found 5 0 start (omega arith)
      (omega arith) (λ x. refl)

-- Every node is redundant.
abbrev all_redundant : State
all_redundant = record start { category = λ d. redundant_category }

clear_redundancy_categorization-Clears_example :
    Ensures ⊥
      (λ t.
        IsIdle t
        × Clears all_redundant t
        × ((t.category 0).redundant ≡ false)
        × ((x : ℕ) → t.visited x ≡ false))
      (clear_redundancy_categorization graph 5 0 all_redundant)
clear_redundancy_categorization-Clears_example =
    clear_redundancy_categorization-Clears graph 4 graph-IsClosed 5 0 all_redundant (omega arith)
      (omega arith) (λ x. refl)

-- What a pass leaves in a node.
abbrev behind : (State → Bool) → Outcome State → Option Bool
behind f (returned s) = some (f s)
behind f _ = none

-- The suppressed child does not suppress its parent, whose other children are not suppressed.
suppression_run :
    behind (λ s. (s.category 3).suppressed) (apply_suppressions graph 5 0 start) ≡ some true
unfolding apply_suppressions walk_with suppression_categorization_visitor suppression_begin
    suppression_end suppresses has_changed_child traverse traverse_node traverse_begun
    traverse_children leave seen enter visit_children visit_after diff_has_been_visited
    mark_diff_as_visited is_traversing begin_traversing end_traversing
    add_to_local_and_inherited_categories
suppression_run = refl

-- Node 2 is met behind its equivalent 1, and is redundant.
redundancy_run :
    behind (λ s. (s.category 2).redundant) (categorize_redundancy graph 5 0 start) ≡ some true
unfolding categorize_redundancy walk_with redundancy_marking_visitor redundancy_begin redundancy_end
    has_changed_child has_equivalent_sibling redundant_with_sibling_node visited_or_traversing
    to_be_reported has_local_changes_to_be_reported is_filtered_out traverse traverse_node
    traverse_begun traverse_children leave seen enter visit_children visit_after
    diff_has_been_visited mark_diff_as_visited is_traversing begin_traversing end_traversing
redundancy_run = refl

-- A node whose one category is allowed is reported, and still is when more is allowed.
abbrev size_category : Category
size_category = record no_change_category { size_or_offset = true }

abbrev size_only : Settings
size_only = record { allowed_category = size_category; show_redundant_changes = false }

size_reported : is_filtered_out size_only size_category ≡ false
unfolding is_filtered_out
size_reported = refl

is_filtered_out-IsReported_example :
    is_filtered_out size_only size_category ≡ false ↔ IsReported size_only size_category
is_filtered_out-IsReported_example = is_filtered_out-IsReported size_only size_category

is_filtered_out-switch_categories_on_example :
    is_filtered_out (switch_categories_on suppressed_category size_only) size_category ≡ false
is_filtered_out-switch_categories_on_example =
    is_filtered_out-switch_categories_on size_only suppressed_category size_category size_reported
