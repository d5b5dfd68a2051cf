-- ===== src/Diff/Passes/Redundancy.antt =====
-- `redundancy_marking_visitor` of `src/abg-comparison.cc`, and `categorize_redundancy`.
use cyglibabigail.Base.{
  ℕ, ◌<◌, true, false, ◌≡◌, refl, inl, inr, Bool-cases, returned, Ensures, returns, Ensures-bind,
  Ensures-if,
}
use cyglibabigail.Diff.Category.{redundant_category}
use cyglibabigail.Diff.Graph.{Diffs, State, is_traversing, to_be_reported}
use cyglibabigail.Diff.Traverse.Flags.{IsClosed, Keeps}
use cyglibabigail.Diff.Visitors.{
  visited_or_traversing, canonical_is_traversing, redundancy_begin, redundancy_end,
  redundancy_marking_visitor, categorize_redundancy,
}
use cyglibabigail.Diff.Grows.{
  redundant, only_redundant, nothing, Grows, Within, Grows-refl, Grows-trans, Grows-same,
  add_to_category-Grows,
}
use cyglibabigail.Diff.Passes.Adding.{
  IsIdle, Adds, Adding, unchanged, walk_with-Adds, after_seen, either_of, under_test,
}

module _ (g : Diffs) (size : ℕ) (closed : IsClosed g size) where
  only_redundant-Within : Within only_redundant redundant_category
  only_redundant-Within redundant h = cc
  only_redundant-Within _ h = refl

  visited_or_traversing-Ensures :
      (d : ℕ) (s : State) → d < size → Ensures ⊥ (λ _. Unit {0}) (visited_or_traversing g d s)
  unfolding visited_or_traversing
  visited_or_traversing-Ensures d s h = after_seen g size closed d s _ h (elim [
    | true ↦ returns tt
    | false ↦
        let (c, e, p, q) = closed.canonical d h in
        let found : canonical_is_traversing g d s ≡ returned (is_traversing g c s) =
          rw (e, canonical_is_traversing) in
        rw found (returns tt)
  ])

  redundancy_begin-Ensures :
      (d : ℕ) (s : State)
      → d < size
      → Ensures ⊥ (λ t. Keeps s t × Grows only_redundant nothing s t) (redundancy_begin g d s)
  unfolding redundancy_begin
  redundancy_begin-Ensures d s h = elim (Bool-cases (to_be_reported g d s)) [
    | inr silent ↦
        rw silent (returns ((λ x. refl), Grows-same only_redundant nothing s _ refl refl))
    | inl reported ↦ rw reported (
        Ensures-bind (visited_or_traversing-Ensures d s h) λ b _. returns (
          under_test g size closed only_redundant nothing _ s _ (
            (λ x. refl),
            Grows-trans only_redundant nothing s _ _
                (add_to_category-Grows only_redundant nothing d redundant_category s
                  only_redundant-Within)
                (Grows-same only_redundant nothing _ _ refl refl),
          )))
  ]

  redundancy_end-Ensures :
      (d : ℕ) (s : State)
      → d < size
      → Ensures ⊥ (λ t. Keeps s t × Grows only_redundant nothing s t) (redundancy_end g d s)
  unfolding redundancy_end
  redundancy_end-Ensures d s h = returns (
      either_of g size closed only_redundant nothing s.skip_children_nodes s _ _
        ((λ x. refl), Grows-same only_redundant nothing s _ refl refl)
        (under_test g size closed only_redundant nothing _ s _ (
          (λ x. refl),
          add_to_category-Grows only_redundant nothing d redundant_category s only_redundant-Within,
        )))

  redundancy-Adding : Adding g size closed (redundancy_marking_visitor g) only_redundant nothing
  unfolding redundancy_marking_visitor
  redundancy-Adding = record {
    begins = redundancy_begin-Ensures;
    visits = λ d pre s h. returns (unchanged g size closed only_redundant nothing s);
    ends = redundancy_end-Ensures;
  }

  -- On a closed graph of `size` nodes, cycles included, from one of its nodes, with no node being
  -- traversed and fuel above `size`, `categorize_redundancy` ends with no assertion failing and no
  -- node being traversed: it adds nothing but the REDUNDANT bit, and that to inherited categories
  -- only.
  pub categorize_redundancy-Adds :
      (n d : ℕ) (s : State)
      → d < size
      → size < n
      → IsIdle s
      → Ensures ⊥ (Adds only_redundant nothing s) (categorize_redundancy g n d s)
  unfolding categorize_redundancy
  categorize_redundancy-Adds n d s h enough idle =
      Ensures-if g.settings.show_redundant_changes
        (returns (idle, Grows-refl only_redundant nothing s))
        (walk_with-Adds g size closed only_redundant nothing (redundancy_marking_visitor g) false n
          d s redundancy-Adding h enough idle)
