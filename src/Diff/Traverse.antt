-- ===== src/Diff/Traverse.antt =====
-- `diff::traverse` of `src/abg-comparison.cc`, for every visitor.
pub mod Flags
pub mod Steps
pub mod Ends
use cyglibabigail.Base.{
  ℕ, zero, suc, Bool, true, false, not, ◌&&◌, ◌||◌, List, [], ◌∷◌, if◌then◌else◌, Outcome, returned,
  aborted, out_of_fuel, ◌>>=◌,
}
use cyglibabigail.Diff.Graph.{
  Diffs, State, diff_has_been_visited, mark_diff_as_visited, is_traversing, begin_traversing,
  end_traversing,
}

-- `diff_node_visitor`; its `visiting_kind_` stands in the state.
pub record Visitor : Type 0 where
  pub visit_begin : ℕ → State → Outcome State
  pub visit : ℕ → Bool → State → Outcome (Bool × State)
  pub visit_end : ℕ → State → Outcome State

-- The loop over the children: it stops where a child's walk returns false. `walk` is the walk of
-- one node.
unfoldable pub traverse_children :
    (ℕ → State → Outcome (Bool × State)) → List ℕ → State → Outcome (Bool × State)
traverse_children walk [] s = returned (true, s)
traverse_children walk (d ∷ ds) s = do
  (more, s') ← walk d s
  elim more [ false ↦ returned (false, s') | true ↦ traverse_children walk ds s' ]

module _ (g : Diffs) (v : Visitor) where
  -- `visit_end`, and the mark if `mark` holds.
  unfoldable pub leave : Bool → ℕ → State → Outcome State
  leave mark d s = do
    s' ← v.visit_end d s
    if mark then mark_diff_as_visited g d s' else returned s'

  -- `already_visited`
  unfoldable pub seen : ℕ → State → Outcome Bool
  seen d s = if s.forbid_visiting_a_node_twice then diff_has_been_visited g d s else returned false

  -- `visit(this, true)`, unless the node has been visited.
  unfoldable pub enter : Bool → ℕ → State → Outcome (Bool × State)
  enter already d s = if already then returned (true, s) else v.visit d true s

  -- The children, between `begin_traversing` and `end_traversing`. Where a child returns false, so
  -- does the node, once it is left and marked; else the walk goes on.
  unfoldable pub visit_children :
      (ℕ → State → Outcome (Bool × State)) → Bool → Bool → ℕ → State → Outcome (Bool × State)
  visit_children walk already mark d s =
      if not s.skip_children_visiting && not (is_traversing g d s) && not already
      then (do
        s₁ ← begin_traversing g d s
        (more, s₂) ← traverse_children walk (g.children_nodes d) s₁
        s₃ ← (if more then returned s₂ else leave mark d s₂)
        s₄ ← end_traversing g d s₃
        returned (more, s₄))
      else returned (true, s)

  -- From `visit(this, false)` to the end.
  unfoldable pub visit_after : Bool → Bool → ℕ → State → Outcome (Bool × State)
  visit_after already mark d s = do
    (more, s₁) ← v.visit d false s
    s₂ ← leave (if more then not already && mark else mark) d s₁
    returned (more, s₂)

  -- The walk of a node behind `visit_begin`, given the walk of its children.
  unfoldable pub traverse_begun :
      (ℕ → State → Outcome (Bool × State)) → ℕ → State → Outcome (Bool × State)
  traverse_begun walk d s = do
    already ← seen d s
    let mark = not s.do_not_mark_visited
    (entered, s₂) ← enter already d s
    elim entered [
      | false ↦ (do s₃ ← leave mark d s₂; returned (false, s₃))
      | true ↦ (do
        (more, s₃) ← visit_children walk already mark d s₂
        elim more [ false ↦ returned (false, s₃) | true ↦ visit_after already mark d s₃ ])
    ]

  unfoldable pub traverse_node :
      (ℕ → State → Outcome (Bool × State)) → ℕ → State → Outcome (Bool × State)
  traverse_node walk d s = do s₁ ← v.visit_begin d s; traverse_begun walk d s₁

  unfoldable pub traverse : ℕ → ℕ → State → Outcome (Bool × State)
  traverse zero d s = out_of_fuel
  traverse (suc n) d s = traverse_node (traverse n) d s
