-- ===== src/Diff/Visitors.antt =====
-- The visitors of `src/abg-comparison.cc` and `src/abg-comp-filter.cc`, and the passes that walk a
-- diff node with them.
use cyglibabigail.Base.{
  ℕ, Bool, true, false, not, ◌&&◌, ◌||◌, List, [], ◌∷◌, Option, none, some, ◌==◌, if◌then◌else◌,
  Outcome, returned, aborted, ◌>>=◌,
}
use cyglibabigail.Diff.Category.{
  Category, category_or, category_minus, suppressed_category, redundant_category, is_set,
  is_everything,
}
use cyglibabigail.Diff.Graph.{
  Diffs, State, update, diff_has_been_visited, is_traversing, to_be_reported,
  has_local_changes_to_be_reported, add_to_category, add_to_local_and_inherited_categories,
}
use cyglibabigail.Diff.Traverse.{Visitor, traverse}

-- `diff_node_visitor::visit_begin`, `visit` and `visit_end`, where a visitor has none of its own.
abbrev pub default_begin : ℕ → State → Outcome State
default_begin d s = returned s

abbrev pub default_visit : ℕ → Bool → State → Outcome (Bool × State)
default_visit d pre s = returned (true, s)

-- The two categories that `category_propagation_visitor` leaves to other visitors.
abbrev pub not_propagated : Category
not_propagated = category_or redundant_category suppressed_category

abbrev pub add_to_option : Option ℕ → Category → State → State
add_to_option none c s = s
add_to_option (some d) c s = add_to_category d c s

-- Each pass makes a visitor of its own, with no flag set.
abbrev pub fresh_visitor : State → State
fresh_visitor s = record s {
  skip_children_visiting = false;
  do_not_mark_visited = false;
  skip_children_nodes = false;
}

-- `forget_visited_diffs`
abbrev pub forget_visited_diffs : State → State
forget_visited_diffs s = record s { visited = λ d. false }

-- `diff::is_suppressed`
unfoldable pub suppresses : List (ℕ → Bool) → ℕ → Bool
suppresses [] d = false
suppresses (p ∷ ps) d = p d || suppresses ps d

module _ (g : Diffs) where
  -- The loop of `category_propagation_visitor::visit_end`, which reads the children or, if the node
  -- has been visited, their canonical nodes.
  unfoldable pub propagate_children : Bool → ℕ → List ℕ → State → Outcome State
  propagate_children already d [] s = returned s
  propagate_children already d (i ∷ is) s = elim (if already then g.canonical_diff i else some i) [
    | none ↦ aborted
    | some node ↦
        let c = category_minus (s.category node) not_propagated in
        let canonical = if already then none else g.canonical_diff d in
        propagate_children already d is (add_to_option canonical c (add_to_category d c s))
  ]

  unfoldable pub propagation_end : ℕ → State → Outcome State
  propagation_end d s = do
    already ← diff_has_been_visited g d s
    propagate_children already d (g.children_nodes d) s

  unfoldable pub category_propagation_visitor : Visitor
  category_propagation_visitor = record {
    visit_begin = default_begin;
    visit = default_visit;
    visit_end = propagation_end;
  }

  unfoldable pub suppression_begin : ℕ → State → Outcome State
  suppression_begin d s = returned (
      if suppresses g.suppressions d
      then add_to_local_and_inherited_categories d suppressed_category s
      else s)

  -- `has_non_empty_child`, and whether a child with changes is or is not suppressed.
  unfoldable pub has_changed_child : (ℕ → Bool) → List ℕ → Bool
  has_changed_child p [] = false
  has_changed_child p (i ∷ is) = (g.has_changes i && p i) || has_changed_child p is

  unfoldable pub suppression_end : ℕ → State → Outcome State
  suppression_end d s =
      let children = g.children_nodes d in
      let is_suppressed = λ (i : ℕ). (s.category i).suppressed in
      returned (
        if not (s.category d).suppressed
          && not (g.has_local_changes d)
          && (has_changed_child (λ i. true) children
              && has_changed_child is_suppressed children
              && not (has_changed_child (λ i. not (is_suppressed i)) children))
        then add_to_category d suppressed_category s
        else s)

  unfoldable pub suppression_categorization_visitor : Visitor
  suppression_categorization_visitor = record {
    visit_begin = suppression_begin;
    visit = default_visit;
    visit_end = suppression_end;
  }

  -- `==` on the addresses of two nodes, either of which may be null.
  abbrev pub same_node : Option ℕ → Option ℕ → Bool
  same_node none none = true
  same_node (some c) (some d) = c == d
  same_node none (some d) = false
  same_node (some c) none = false

  -- The loop over the siblings, `fn_parm_diff` nodes being looked through.
  unfoldable pub has_equivalent_sibling : ℕ → List ℕ → Bool
  has_equivalent_sibling d [] = false
  has_equivalent_sibling d (s ∷ ss) =
      let sib : ℕ = elim (g.fn_parm_type_diff s) [ none ↦ s | some t ↦ t ] in
      (not (s == d) && not (sib == d) && same_node (g.canonical_diff sib) (g.canonical_diff d))
      || has_equivalent_sibling d ss

  -- The parent, or its parent if it is a `fn_parm_diff`.
  abbrev pub parent_or_above : ℕ → Option ℕ
  parent_or_above d = elim (g.parent_node d) [
    | none ↦ none
    | some p ↦ elim (g.fn_parm_type_diff p) [ none ↦ some p | some t ↦ g.parent_node p ]
  ]

  unfoldable pub redundant_with_sibling_node : ℕ → Bool
  redundant_with_sibling_node d = elim (parent_or_above d) [
    | none ↦ false
    | some p ↦ has_equivalent_sibling d (g.children_nodes p)
  ]

  -- `set_visiting_kind(get_visiting_kind() | SKIP_CHILDREN_VISITING_KIND)`, and the visitor's flag
  abbrev pub skip_children : State → State
  skip_children s = record s { skip_children_visiting = true; skip_children_nodes = true }

  -- `d->get_canonical_diff()->is_traversing()`
  abbrev pub canonical_is_traversing : ℕ → State → Outcome Bool
  canonical_is_traversing d s = elim (g.canonical_diff d) [
    | none ↦ aborted
    | some c ↦ returned (is_traversing g c s)
  ]

  -- The second operand of `||` is read only if the first is false.
  unfoldable pub visited_or_traversing : ℕ → State → Outcome Bool
  visited_or_traversing d s = do
    visited ← diff_has_been_visited g d s
    if visited then returned true else canonical_is_traversing d s

  unfoldable pub redundancy_begin : ℕ → State → Outcome State
  redundancy_begin d s =
      if to_be_reported g d s
      then (do
        elsewhere ← visited_or_traversing d s
        returned (
            if (elsewhere && g.has_changes d)
              && not (redundant_with_sibling_node d)
              && not (g.is_function_type_diff d)
              && not (g.is_variadic d)
            then skip_children (add_to_category d redundant_category s)
            else s))
      else returned (skip_children s)

  unfoldable pub redundancy_end : ℕ → State → Outcome State
  redundancy_end d s =
      let children = g.children_nodes d in
      let is_reported = λ (i : ℕ). to_be_reported g i s && not (s.category i).redundant in
      returned (
        if s.skip_children_nodes
        then record s { skip_children_visiting = false; skip_children_nodes = false }
        else if not (s.category d).redundant
            && not (has_local_changes_to_be_reported g d s)
            && (has_changed_child (λ i. true) children
                && not (has_changed_child is_reported children))
        then add_to_category d redundant_category s
        else s)

  unfoldable pub redundancy_marking_visitor : Visitor
  redundancy_marking_visitor = record {
    visit_begin = redundancy_begin;
    visit = default_visit;
    visit_end = redundancy_end;
  }

  -- `redundancy_clearing_visitor::visit`
  unfoldable pub clear_redundancy : ℕ → Bool → State → Outcome (Bool × State)
  clear_redundancy d pre s = returned (
    true,
    record s { category = update s.category d (category_minus (s.category d) redundant_category) },
  )

  unfoldable pub redundancy_clearing_visitor : Visitor
  redundancy_clearing_visitor = record {
    visit_begin = default_begin;
    visit = clear_redundancy;
    visit_end = default_begin;
  }

  -- `harmless_filter` and `harmful_filter`, where `change` is the category that the filter finds on
  -- a node: both add it to the node and to its canonical node.
  module _ (change : ℕ → Category) where
    abbrev pub add_to_canonical : Option ℕ → Category → State → State
    add_to_canonical none c s = s
    add_to_canonical (some d) c s = add_to_local_and_inherited_categories d c s

    unfoldable pub filter_visit : ℕ → Bool → State → Outcome (Bool × State)
    filter_visit d pre s = returned (
      true,
      if g.has_changes d && pre && is_set (change d)
          then add_to_canonical (g.canonical_diff d) (change d)
              (add_to_local_and_inherited_categories d (change d) s)
          else s,
    )

    unfoldable pub filter_end : ℕ → State → Outcome State
    filter_end d s = do
      visited ← diff_has_been_visited g d s
      elim (g.canonical_diff d) [
        | none ↦ returned s
        | some c ↦
            returned (
              if visited then add_to_local_and_inherited_categories d (s.local_category c) s else s)
      ]

    unfoldable pub filter_visitor : Visitor
    filter_visitor = record {
      visit_begin = default_begin;
      visit = filter_visit;
      visit_end = filter_end;
    }

  -- A walk with the flag set as given, and put back behind it.
  unfoldable pub walk_with : Visitor → Bool → ℕ → ℕ → State → Outcome State
  walk_with v forbid n d s = do
    (more, s') ←
        traverse g v n d (fresh_visitor (record s { forbid_visiting_a_node_twice = forbid }))
    returned (record s' { forbid_visiting_a_node_twice = s.forbid_visiting_a_node_twice })

  unfoldable pub apply_filter : (ℕ → Category) → ℕ → ℕ → State → Outcome State
  apply_filter change n d s = walk_with (filter_visitor change) true n d (forget_visited_diffs s)

  unfoldable pub propagate_categories : ℕ → ℕ → State → Outcome State
  propagate_categories n d s =
      walk_with category_propagation_visitor true n d (forget_visited_diffs s)

  unfoldable pub apply_suppressions : ℕ → ℕ → State → Outcome State
  apply_suppressions n d s = elim g.suppressions [
    | [] ↦ returned s
    | p ∷ ps ↦ walk_with suppression_categorization_visitor false n d s
  ]

  unfoldable pub categorize_redundancy : ℕ → ℕ → State → Outcome State
  categorize_redundancy n d s =
      if g.settings.show_redundant_changes
      then returned s
      else walk_with redundancy_marking_visitor false n d s

  unfoldable pub clear_redundancy_categorization : ℕ → ℕ → State → Outcome State
  clear_redundancy_categorization n d s = do
    s' ← walk_with redundancy_clearing_visitor false n d s
    returned (forget_visited_diffs s')

  -- The loop of `diff_context::maybe_apply_filters` over the filters.
  unfoldable pub apply_filters : List (ℕ → Category) → ℕ → ℕ → State → Outcome State
  apply_filters [] n d s = returned s
  apply_filters (f ∷ fs) n d s = do
    s₁ ← apply_filter f n d s
    s₂ ← propagate_categories n d s₁
    apply_filters fs n d s₂

  unfoldable pub maybe_apply_filters : List (ℕ → Category) → ℕ → ℕ → State → Outcome State
  maybe_apply_filters fs n d s =
      if is_everything g.settings.allowed_category || not (g.has_changes d)
      then returned s
      else apply_filters fs n d s
