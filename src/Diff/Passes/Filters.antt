-- ===== src/Diff/Passes/Filters.antt =====
-- The filters of `src/abg-comp-filter.cc`, and `diff_context::maybe_apply_filters`.
use cyglibabigail.Base.{
  ℕ, ◌<◌, Bool, true, false, not, ◌&&◌, ◌||◌, List, [], ◌∷◌, Option, none, some, if◌then◌else◌, ◌≡◌,
  refl, ◌∙◌, inl, inr, arith, Bool-cases, returned, Ensures, returns, Ensures-bind, Ensures-map,
  Ensures-both,
}
use cyglibabigail.Diff.Category.{Category, is_set, is_everything}
use cyglibabigail.Diff.Graph.{
  Diffs, State, diff_has_been_visited, add_to_local_and_inherited_categories,
}
use cyglibabigail.Diff.Traverse.{seen}
use cyglibabigail.Diff.Traverse.Flags.{IsClosed, Keeps, free-le}
use cyglibabigail.Diff.Traverse.Ends.{traverse-entered}
use cyglibabigail.Diff.Visitors.{
  add_to_canonical, filter_visit, filter_end, filter_visitor, apply_filters, maybe_apply_filters,
  apply_filter, forget_visited_diffs, fresh_visitor, walk_with,
}
use cyglibabigail.Diff.Grows.{
  BitGrows, neither, nothing, anything, Grows, Within, Grows-refl, Grows-trans,
  add_to_local_and_inherited_categories-Grows,
}
use cyglibabigail.Diff.Passes.Adding.{
  IsIdle, Adds, Adding, Adding-Stays, unchanged, under_test, after_seen,
}
use cyglibabigail.Diff.Passes.Propagation.{propagate_categories-Adds}
use cyglibabigail.Diff.Passes.Origin.{
  StaysAbsent, apply_filter-StaysAbsent, propagate_categories-StaysAbsent,
}
use cyglibabigail.Diff.Passes.Found.{
  HasFound, Found, FoundNowhere, FilteredFrom, HasFound-Grows, added_here, is_set-has,
}

module _ (g : Diffs) (size : ℕ) (closed : IsClosed g size) where
  anything-Within : (c : Category) → Within anything c
  anything-Within c b h = cc

  filter_visit-Adding :
      (o : Option ℕ) (change : ℕ → Category) (d : ℕ) (s : State)
      → (let t =
            add_to_canonical g change o
              (change d)
              (add_to_local_and_inherited_categories d (change d) s) in
          Keeps s t × Grows anything anything s t)
  unfolding add_to_local_and_inherited_categories
  filter_visit-Adding none change d s = (
    (λ x. refl),
    add_to_local_and_inherited_categories-Grows anything anything d (change d) s
        (anything-Within (change d)) (anything-Within (change d)),
  )
  filter_visit-Adding (some c) change d s =
      let w = anything-Within (change d) in
      let t = add_to_local_and_inherited_categories d (change d) s in
      (
        (λ x. refl),
        Grows-trans anything anything s t _
            (add_to_local_and_inherited_categories-Grows anything anything d (change d) s w w)
            (add_to_local_and_inherited_categories-Grows anything anything c (change d) t w w),
      )

  filter_end-Adding :
      (o : Option ℕ) (visited : Bool) (d : ℕ) (s : State)
      → Ensures ⊥
          (λ t. Keeps s t × Grows anything anything s t)
          (elim o [
            | none ↦ returned s
            | some c ↦ returned (
                if visited
                then add_to_local_and_inherited_categories d (s.local_category c) s
                else s)
          ])
  unfolding add_to_local_and_inherited_categories
  filter_end-Adding none visited d s = returns (unchanged g size closed anything anything s)
  filter_end-Adding (some c) visited d s =
      let w = anything-Within (s.local_category c) in
      returns (
        under_test g size closed anything anything visited s _ (
          (λ x. refl),
          add_to_local_and_inherited_categories-Grows anything anything d (s.local_category c) s w
              w,
        ))

  filter-Adding :
      (change : ℕ → Category) → Adding g size closed (filter_visitor g change) anything anything
  unfolding filter_visitor filter_visit filter_end
  filter-Adding change = record {
    begins = λ d s h. returns (unchanged g size closed anything anything s);
    visits = λ d pre s h. returns (
        under_test g size closed anything anything _ s _
          (filter_visit-Adding (g.canonical_diff d) change d s));
    ends = λ d s h.
        after_seen g size closed d s _ h
          (λ visited. filter_end-Adding (g.canonical_diff d) visited d s);
  }

  -- A change within a smaller set of bits is one within a larger.
  Grows-anything : (s t : State) → Grows neither nothing s t → Grows anything anything s t
  Grows-anything s t p = record {
    inherited = λ x b. kept (neither b) _ _ (p.inherited x b);
    own = λ x b. kept (nothing b) _ _ (p.own x b);
  }
    where
      kept : (m p q : Bool) → BitGrows m p q → BitGrows true p q
      kept true p q h = h
      kept false p q h = λ e. h ∙ e

  added_to_canonical :
      (o : Option ℕ) (change : ℕ → Category) (d : ℕ) (s : State)
      → HasFound change d (
          add_to_canonical g change o
            (change d)
            (add_to_local_and_inherited_categories d (change d) s))
  added_to_canonical none change d s = added_here d (change d) s
  added_to_canonical (some c) change d s =
      let t = add_to_local_and_inherited_categories d (change d) s in
      let w = anything-Within (change d) in
      HasFound-Grows change d t _
        (add_to_local_and_inherited_categories-Grows anything anything c (change d) t w w)
        (added_here d (change d) s)

  -- On a node with changes, `visit` before the children adds what the filter finds there, if that
  -- is anything.
  found_by_visit :
      (change : ℕ → Category) (d : ℕ) (s : State)
      → (s₁ : State) × (filter_visit g change d true s ≡ returned (true, s₁))
        × Keeps s s₁
        × Grows anything anything s s₁
        × (g.has_changes d ≡ true → HasFound change d s₁)
  unfolding filter_visit
  found_by_visit change d s = elim (Bool-cases (g.has_changes d && true && is_set (change d))) [
    | inl found ↦
        let p = filter_visit-Adding (g.canonical_diff d) change d s in
        (_, rw found refl, p.0, p.1, λ changed. added_to_canonical (g.canonical_diff d) change d s)
    | inr idle ↦ (
      s,
      rw idle refl,
      λ x. refl,
      Grows-refl anything anything s,
      λ changed b h. let set = is_set-has b (change d) h in cc (changed, set, idle),
    )
  ]

  apply_filter-Finds :
      (change : ℕ → Category) (n d : ℕ) (s : State)
      → d < size
      → size < n
      → IsIdle s
      → Ensures ⊥
          (λ t. Adds anything anything s t × (g.has_changes d ≡ true → HasFound change d t))
          (apply_filter g change n d s)
  unfolding apply_filter walk_with filter_visitor seen diff_has_been_visited
  apply_filter-Finds change n d s h enough idle =
      let s₀ =
        fresh_visitor (record (forget_visited_diffs s) { forbid_visiting_a_node_twice = true }) in
      let (s₁, e, keeps, first, found) = found_by_visit change d s₀ in
      let (c, at_c, in_c, own_c) = closed.canonical d h in
      Ensures-bind
        (traverse-entered g size closed (filter_visitor g change) (Grows anything anything)
          (Adding-Stays g size closed anything anything (filter_visitor g change)
            (filter-Adding change))
          n d s₀ s₁ h (λ x hx on. cc (idle x, keeps x)) (omega (arith, free-le size s₁.traversing))
          refl (rw (at_c, diff_has_been_visited) refl) e)
        (λ (more, t) p.
          let q = Grows-trans anything anything s₀ s₁ t first p.1 in
          returns (
            (
              λ x. p.0 x ∙ keeps x ∙ idle x,
              record { inherited = λ x b. q.inherited x b; own = λ x b. q.own x b },
            ),
            λ changed. HasFound-Grows change d s₁ t p.1 (found changed),
          ))

  apply_filters-Finds :
      (changes : List (ℕ → Category)) (n d : ℕ) (s : State)
      → d < size
      → size < n
      → IsIdle s
      → Ensures ⊥
          (λ t.
            Adds anything anything s t
            × (g.has_changes d ≡ true → Found changes d t)
            × StaysAbsent (FoundNowhere changes) s t)
          (apply_filters g changes n d s)
  unfolding apply_filters
  apply_filters-Finds [] n d s h enough idle =
      returns ((idle, Grows-refl anything anything s), λ changed. tt, λ b q a. a)
  apply_filters-Finds (f ∷ fs) n d s h enough idle =
      let quiet = FoundNowhere (f ∷ fs) in
      Ensures-bind
        (Ensures-both (apply_filter-Finds f n d s h enough idle)
          (apply_filter-StaysAbsent g size closed quiet f (λ b q. q.0) n d s h enough idle))
        λ t p.
          Ensures-bind
            (Ensures-both (propagate_categories-Adds g size closed n d t h enough p.0.0.0)
              (propagate_categories-StaysAbsent g size closed quiet n d t h enough p.0.0.0))
            λ u q. Ensures-map (apply_filters-Finds fs n d u h enough q.0.0) λ w r.
              let later = Grows-trans anything anything t u w (Grows-anything t u q.0.1) r.0.1 in
              (
                (r.0.0, Grows-trans anything anything s t w p.0.0.1 later),
                (λ changed. (HasFound-Grows f d t w later (p.0.1 changed), r.1 changed)),
                λ b k a. r.2 b k.1 (q.1 b k (p.1 b k a)),
              )

  -- On a closed graph of `size` nodes, cycles included, from one of its nodes, with no node being
  -- traversed and fuel above `size`, `maybe_apply_filters` ends for every list of filters, with no
  -- assertion failing and no node being traversed, and no node loses a category. If every category
  -- is allowed or the start node has no changes, nothing changes at all. Otherwise the start node
  -- has in the end, in its own and in its inherited category, every bit that some filter finds on
  -- it; and a bit that no filter finds on any node and that no node had is on no node.
  pub maybe_apply_filters-Finds :
      (changes : List (ℕ → Category)) (n d : ℕ) (s : State)
      → d < size
      → size < n
      → IsIdle s
      → Ensures ⊥
          (λ t.
            Adds anything anything s t
            × FilteredFrom
                (is_everything g.settings.allowed_category || not (g.has_changes d))
                changes
                d
                s
                t)
          (maybe_apply_filters g changes n d s)
  unfolding maybe_apply_filters
  maybe_apply_filters-Finds changes n d s h enough idle =
      elim (Bool-cases (is_everything g.settings.allowed_category || not (g.has_changes d))) [
        | inl passed ↦ rw passed (returns ((idle, Grows-refl anything anything s), refl))
        | inr filtered ↦
            let changed : g.has_changes d ≡ true = ground (arith, filtered) in
            rw filtered (
              Ensures-map (apply_filters-Finds changes n d s h enough idle)
                (λ t p. (p.0, (p.1 changed, p.2))))
      ]

  -- The same, of which only the growth is kept.
  pub maybe_apply_filters-Adds :
      (changes : List (ℕ → Category)) (n d : ℕ) (s : State)
      → d < size
      → size < n
      → IsIdle s
      → Ensures ⊥ (Adds anything anything s) (maybe_apply_filters g changes n d s)
  maybe_apply_filters-Adds changes n d s h enough idle =
      Ensures-map (maybe_apply_filters-Finds changes n d s h enough idle) (λ t p. p.0)
