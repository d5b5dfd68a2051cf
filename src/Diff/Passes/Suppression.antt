-- ===== src/Diff/Passes/Suppression.antt =====
-- `suppression_categorization_visitor` of `src/abg-comparison.cc`, and `apply_suppressions`.
use cyglibabigail.Base.{
  ℕ, ◌<◌, Bool, true, false, List, [], ◌∷◌, ◌==◌, ◌≡◌, refl, ◌∙◌, inl, inr, arith, Bool-cases,
  ==_iff, returned, Ensures, returns, Ensures-bind, Ensures-map,
}
use cyglibabigail.Diff.Category.{category_or, suppressed_category}
use cyglibabigail.Diff.Graph.{Diffs, State, update, add_to_local_and_inherited_categories}
use cyglibabigail.Diff.Traverse.Flags.{IsClosed, free, free-le}
use cyglibabigail.Diff.Traverse.Ends.{traverse-begun}
use cyglibabigail.Diff.Visitors.{
  suppresses, suppression_begin, suppression_end, suppression_categorization_visitor, walk_with,
  apply_suppressions, fresh_visitor,
}
use cyglibabigail.Diff.Grows.{
  suppressed, only_suppressed, Grows, Within, Grows-refl, Grows-trans, add_to_category-Grows,
  add_to_local_and_inherited_categories-Grows,
}
use cyglibabigail.Diff.Passes.Adding.{
  IsIdle, Adds, Adding, Adding-Stays, unchanged, walk_with-Adds, under_test,
}

module _ (g : Diffs) (size : ℕ) (closed : IsClosed g size) where
  only_suppressed-Within : Within only_suppressed suppressed_category
  only_suppressed-Within suppressed h = cc
  only_suppressed-Within _ h = refl

  suppression-Adding :
      Adding g size closed (suppression_categorization_visitor g) only_suppressed only_suppressed
  unfolding suppression_categorization_visitor suppression_begin suppression_end
      add_to_local_and_inherited_categories
  suppression-Adding = record {
    begins = λ d s h. returns (
        under_test g size closed only_suppressed only_suppressed _ s _ (
          (λ x. refl),
          add_to_local_and_inherited_categories-Grows only_suppressed only_suppressed d
              suppressed_category s only_suppressed-Within only_suppressed-Within,
        ));
    visits = λ d pre s h. returns (unchanged g size closed only_suppressed only_suppressed s);
    ends = λ d s h. returns (
        under_test g size closed only_suppressed only_suppressed _ s _ (
          (λ x. refl),
          add_to_category-Grows only_suppressed only_suppressed d suppressed_category s
              only_suppressed-Within,
        ));
  }

  begun_suppressed :
      (d : ℕ) (s : State)
      → (update s.category d (category_or (s.category d) suppressed_category) d).suppressed ≡ true
  begun_suppressed d s = let same : (d == d) ≡ true = (==_iff d d).1 refl in rw same (ground arith)

  -- The walk of `apply_suppressions`, from a node that a suppression matches.
  suppressed_walk :
      (n d : ℕ) (s : State)
      → d < size
      → size < n
      → IsIdle s
      → suppresses g.suppressions d ≡ true
      → Ensures ⊥
          (λ t. Adds only_suppressed only_suppressed s t × ((t.category d).suppressed ≡ true))
          (walk_with g (suppression_categorization_visitor g) false n d s)
  unfolding walk_with suppression_categorization_visitor suppression_begin
      add_to_local_and_inherited_categories
  suppressed_walk n d s h enough idle matched =
      let s₀ = fresh_visitor (record s { forbid_visiting_a_node_twice = false }) in
      let s₁ = add_to_local_and_inherited_categories d suppressed_category s₀ in
      let first : Grows only_suppressed only_suppressed s₀ s₁ =
        add_to_local_and_inherited_categories-Grows only_suppressed only_suppressed d
          suppressed_category s₀ only_suppressed-Within only_suppressed-Within in
      Ensures-bind
        (traverse-begun g size closed (suppression_categorization_visitor g)
          (Grows only_suppressed only_suppressed)
          (Adding-Stays g size closed only_suppressed only_suppressed
            (suppression_categorization_visitor g) suppression-Adding)
          n d s₀ s₁ h (λ x hx on. cc (idle x)) (omega (arith, free-le size s.traversing))
          (rw matched))
        (λ (more, t) p.
          let q = Grows-trans only_suppressed only_suppressed s₀ s₁ t first p.1 in
          returns (
            (
              λ x. p.0 x ∙ idle x,
              record { inherited = λ x b. q.inherited x b; own = λ x b. q.own x b },
            ),
            p.1.inherited d suppressed (begun_suppressed d s),
          ))

  apply_suppressions_from :
      (l : List (ℕ → Bool)) (n d : ℕ) (s : State)
      → g.suppressions ≡ l
      → d < size
      → size < n
      → IsIdle s
      → Ensures ⊥
          (λ t.
            Adds only_suppressed only_suppressed s t
            × (suppresses l d ≡ true → (t.category d).suppressed ≡ true))
          (elim l [
            | [] ↦ returned s
            | p ∷ ps ↦ walk_with g (suppression_categorization_visitor g) false n d s
          ])
  apply_suppressions_from [] n d s e h enough idle =
      returns ((idle, Grows-refl only_suppressed only_suppressed s), unfold suppresses in λ m. cc)
  apply_suppressions_from (p ∷ ps) n d s e h enough idle =
      elim (Bool-cases (suppresses (p ∷ ps) d)) [
        | inl matched ↦
            Ensures-map (suppressed_walk n d s h enough idle (rw e matched))
              (λ t q. (q.0, λ m. q.1))
        | inr free ↦
            Ensures-map
              (walk_with-Adds g size closed only_suppressed only_suppressed
                (suppression_categorization_visitor g) false n d s suppression-Adding h enough idle)
              (λ t q. (q, λ m. cc free))
      ]

  -- On a closed graph of `size` nodes, cycles included, from one of its nodes, with no node being
  -- traversed and fuel above `size`, `apply_suppressions` ends with no assertion failing and no node
  -- being traversed: it adds nothing but the SUPPRESSED bit, and loses none. If some suppression of
  -- the context matches the start node, that node has the bit in the end.
  pub apply_suppressions-Adds :
      (n d : ℕ) (s : State)
      → d < size
      → size < n
      → IsIdle s
      → Ensures ⊥
          (λ t.
            Adds only_suppressed only_suppressed s t
            × (suppresses g.suppressions d ≡ true → (t.category d).suppressed ≡ true))
          (apply_suppressions g n d s)
  unfolding apply_suppressions
  apply_suppressions-Adds n d s = apply_suppressions_from g.suppressions n d s refl
