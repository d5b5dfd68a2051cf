-- ===== src/Diff/Passes/Propagation.antt =====
-- `category_propagation_visitor` of `src/abg-comparison.cc`, and `propagate_categories`.
use cyglibabigail.Base.{
  ℕ, ◌<◌, Bool, true, false, List, [], ◌∷◌, Option, none, some, if◌then◌else◌, ◌≡◌, refl, arith,
  Ensures, returns, Ensures-map,
}
use cyglibabigail.Diff.Category.{Category, category_minus}
use cyglibabigail.Diff.Graph.{Diffs, State, add_to_category}
use cyglibabigail.Diff.Traverse.Flags.{AllBelow, IsClosed, Keeps}
use cyglibabigail.Diff.Visitors.{
  not_propagated, propagate_children, propagation_end, category_propagation_visitor,
  propagate_categories, forget_visited_diffs, add_to_option,
}
use cyglibabigail.Diff.Grows.{
  Enumerator, suppressed, redundant, neither, nothing, Grows, Within, Grows-trans,
  add_to_category-Grows,
}
use cyglibabigail.Diff.Passes.Adding.{
  IsIdle, Adds, Adding, unchanged, walk_with-Adds, after_seen, then_,
}

module _ (g : Diffs) (size : ℕ) (closed : IsClosed g size) where
  not_propagated-Within : (c : Category) → Within neither (category_minus c not_propagated)
  not_propagated-Within c suppressed h = ground arith
  not_propagated-Within c redundant h = ground arith
  not_propagated-Within c _ h = cc

  add_to_option-Grows :
      (may may_local : Enumerator → Bool) (o : Option ℕ) (d : ℕ) (k : Category) (s : State)
      → Within may k
      → Grows may may_local s (add_to_option o k (add_to_category d k s))
  add_to_option-Grows may may_local none d k s w = add_to_category-Grows may may_local d k s w
  add_to_option-Grows may may_local (some c) d k s w =
      Grows-trans may may_local s _ _ (add_to_category-Grows may may_local d k s w)
        (add_to_category-Grows may may_local c k (add_to_category d k s) w)

  add_to_option-Keeps :
      (o : Option ℕ) (d : ℕ) (k : Category) (s : State)
      → Keeps s (add_to_option o k (add_to_category d k s))
  add_to_option-Keeps none d k s x = refl
  add_to_option-Keeps (some c) d k s x = refl

  propagate_children-Adding :
      (already : Bool) (d : ℕ) (ds : List ℕ) (s : State)
      → d < size
      → AllBelow size ds
      → Ensures ⊥ (λ t. Keeps s t × Grows neither nothing s t) (propagate_children g already d ds s)
  unfolding propagate_children
  propagate_children-Adding already d [] s h b = returns (unchanged g size closed neither nothing s)
  propagate_children-Adding already d (i ∷ is) s h b =
      let (node, e) = source already in
      let k = category_minus (s.category node) not_propagated in
      let o : Option ℕ = if already then none else g.canonical_diff d in
      let s' = add_to_option o k (add_to_category d k s) in
      let step : Keeps s s' × Grows neither nothing s s' = (
        add_to_option-Keeps o d k s,
        add_to_option-Grows neither nothing o d k s (not_propagated-Within (s.category node)),
      ) in
      rw (e, propagate_children)
        (Ensures-map (propagate_children-Adding already d is s' h b.1)
          (λ t q. then_ g size closed neither nothing s s' t step q))
    where
      source : (a : Bool) → (node : ℕ) × ((if a then g.canonical_diff i else some i) ≡ some node)
      source true = let (c, e, p, q) = closed.canonical i b.0 in (c, e)
      source false = (i, refl)

  propagation-Adding : Adding g size closed (category_propagation_visitor g) neither nothing
  unfolding category_propagation_visitor propagation_end
  propagation-Adding = record {
    begins = λ d s h. returns (unchanged g size closed neither nothing s);
    visits = λ d pre s h. returns (unchanged g size closed neither nothing s);
    ends = λ d s h.
        after_seen g size closed d s _ h
          (λ b. propagate_children-Adding b d (g.children_nodes d) s h (closed.children d h));
  }

  -- On a closed graph of `size` nodes, cycles included, from one of its nodes, with no node being
  -- traversed and fuel above `size`, `propagate_categories` ends with no assertion failing and no
  -- node being traversed: it only adds to inherited categories, and changes neither the REDUNDANT
  -- nor the SUPPRESSED bit of any node, nor the nodes' own categories.
  pub propagate_categories-Adds :
      (n d : ℕ) (s : State)
      → d < size
      → size < n
      → IsIdle s
      → Ensures ⊥ (Adds neither nothing s) (propagate_categories g n d s)
  unfolding propagate_categories
  propagate_categories-Adds n d s h enough idle =
      Ensures-map
        (walk_with-Adds g size closed neither nothing (category_propagation_visitor g) true n d
          (forget_visited_diffs s) propagation-Adding h enough idle)
        (λ t p. (p.0, record { inherited = p.1.inherited; own = p.1.own }))
