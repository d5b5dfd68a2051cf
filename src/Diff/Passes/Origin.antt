-- ===== src/Diff/Passes/Origin.antt =====
-- Where the categories that the filters of `src/abg-comp-filter.cc` leave come from: a bit that no
-- filter finds and that no node has is on no node behind them.
use cyglibabigail.Base.{
  ℕ, ◌<◌, Bool, true, false, not, ◌&&◌, ◌||◌, List, [], ◌∷◌, Option, none, some, ◌==◌,
  if◌then◌else◌, ◌≡◌, refl, ◌∙◌, inl, inr, arith, Bool-cases, returned, Ensures, returns,
  Ensures-bind, Ensures-map,
}
use cyglibabigail.Diff.Category.{Category, category_or, category_minus, is_set}
use cyglibabigail.Diff.Graph.{
  Diffs, State, update, add_to_category, add_to_local_and_inherited_categories,
}
use cyglibabigail.Diff.Traverse.{Visitor}
use cyglibabigail.Diff.Traverse.Flags.{AllBelow, IsClosed, Keeps, free-le}
use cyglibabigail.Diff.Traverse.Steps.{Stays}
use cyglibabigail.Diff.Traverse.Ends.{traverse-Ensures}
use cyglibabigail.Diff.Visitors.{
  add_to_canonical, filter_visit, filter_end, filter_visitor, apply_filter, walk_with,
  fresh_visitor, not_propagated, propagate_children, propagation_end, category_propagation_visitor,
  propagate_categories, add_to_option, forget_visited_diffs,
}
use cyglibabigail.Diff.Grows.{Enumerator, has, has-zip_with}
use cyglibabigail.Diff.Passes.Adding.{IsIdle, after_seen}

-- No node has the bit, in neither of its categories.
abbrev pub IsAbsent : Enumerator → State → Type 0
IsAbsent b s = (x : ℕ) → (has b (s.category x) ≡ false) × (has b (s.local_category x) ≡ false)

or_absent :
    (b : Enumerator) (f : ℕ → Category) (d x : ℕ) (k : Category)
    → has b (f x) ≡ false
    → has b (f d) ≡ false
    → has b k ≡ false
    → has b (update f d (category_or (f d) k) x) ≡ false
or_absent b f d x k p q r = elim (Bool-cases (x == d)) [
  | inl same ↦ rw (same, has-zip_with (λ x y. x || y) b (f d) k, q, r) refl
  | inr other ↦ rw (other, p) refl
]

module _ (b : Enumerator) (d : ℕ) (k : Category) (s : State) (none_yet : IsAbsent b s)
    (not_added : has b k ≡ false) where
  add_to_category-IsAbsent : IsAbsent b (add_to_category d k s)
  add_to_category-IsAbsent x =
      (or_absent b s.category d x k (none_yet x).0 (none_yet d).0 not_added, (none_yet x).1)

  add_to_local_and_inherited_categories-IsAbsent :
      IsAbsent b (add_to_local_and_inherited_categories d k s)
  unfolding add_to_local_and_inherited_categories
  add_to_local_and_inherited_categories-IsAbsent x = (
    or_absent b s.category d x k (none_yet x).0 (none_yet d).0 not_added,
    or_absent b s.local_category d x k (none_yet x).1 (none_yet d).1 not_added,
  )

minus_absent :
    (b : Enumerator) (c k : Category) → has b c ≡ false → has b (category_minus c k) ≡ false
minus_absent b c k h = rw (has-zip_with (λ x y. x && not y) b c k, h) refl

-- The bits of a set that are absent stay so.
abbrev pub StaysAbsent : (Enumerator → Type 0) → State → State → Type 0
StaysAbsent quiet s t = (b : Enumerator) → quiet b → IsAbsent b s → IsAbsent b t

module _ (g : Diffs) (size : ℕ) (closed : IsClosed g size) (quiet : Enumerator → Type 0) where
  under :
      (c : Bool) (s t : State) → StaysAbsent quiet s t → StaysAbsent quiet s (if c then t else s)
  under true s t h = h
  under false s t h = λ b q a. a

  Keeps-under : (c : Bool) (s t : State) → Keeps s t → Keeps s (if c then t else s)
  Keeps-under true s t h = h
  Keeps-under false s t h = λ x. refl

  walk_with-StaysAbsent :
      (v : Visitor) (forbid : Bool) (n d : ℕ) (s : State)
      → Stays g size v (StaysAbsent quiet)
      → d < size
      → size < n
      → IsIdle s
      → Ensures ⊥ (StaysAbsent quiet s) (walk_with g v forbid n d s)
  unfolding walk_with
  walk_with-StaysAbsent v forbid n d s stays h enough idle =
      Ensures-bind
        (traverse-Ensures g size closed v (StaysAbsent quiet) stays n d
          (fresh_visitor (record s { forbid_visiting_a_node_twice = forbid })) h
          (λ x hx on. cc (idle x)) (omega (arith, free-le size s.traversing)))
        (λ (more, t) p. returns p.1)

  module _ (change : ℕ → Category)
      (not_found : (b : Enumerator) → quiet b → (x : ℕ) → has b (change x) ≡ false) where
    visited_absent :
        (o : Option ℕ) (d : ℕ) (s : State)
        → (let t =
              add_to_canonical g change o
                (change d)
                (add_to_local_and_inherited_categories d (change d) s) in
            Keeps s t × StaysAbsent quiet s t)
    unfolding add_to_local_and_inherited_categories
    visited_absent none d s = (
      λ x. refl,
      λ b q a. add_to_local_and_inherited_categories-IsAbsent b d (change d) s a (not_found b q d),
    )
    visited_absent (some c) d s = (
      λ x. refl,
      λ b q a.
          add_to_local_and_inherited_categories-IsAbsent b c (change d)
            (add_to_local_and_inherited_categories d (change d) s)
            (add_to_local_and_inherited_categories-IsAbsent b d (change d) s a (not_found b q d))
            (not_found b q d),
    )

    ended_absent :
        (o : Option ℕ) (visited : Bool) (d : ℕ) (s : State)
        → Ensures ⊥
            (λ t. Keeps s t × StaysAbsent quiet s t)
            (elim o [
              | none ↦ returned s
              | some c ↦ returned (
                  if visited
                  then add_to_local_and_inherited_categories d (s.local_category c) s
                  else s)
            ])
    unfolding add_to_local_and_inherited_categories
    ended_absent none visited d s = returns (λ x. refl, λ b q a. a)
    ended_absent (some c) visited d s = returns (
      Keeps-under visited s _ (λ x. refl),
      under visited s _ (λ b q a.
          add_to_local_and_inherited_categories-IsAbsent b d (s.local_category c) s a (a c).1),
    )

    filter_visitor-Stays : Stays g size (filter_visitor g change) (StaysAbsent quiet)
    unfolding filter_visitor filter_visit filter_end
    filter_visitor-Stays = record {
      same = λ s b q a. a;
      both = λ s t u p r b q a. r b q (p b q a);
      begins = λ d s h. returns (λ x. refl, λ b q a. a);
      visits = λ d pre s h.
          let p = visited_absent (g.canonical_diff d) d s in
          let c = g.has_changes d && pre && is_set (change d) in
          returns (Keeps-under c s _ p.0, under c s _ p.1);
      ends = λ d s h.
          after_seen g size closed d s _ h
            (λ visited. ended_absent (g.canonical_diff d) visited d s);
      marks = λ s f b q a. a;
      flags = λ s f b q a. a;
    }

    pub apply_filter-StaysAbsent :
        (n d : ℕ) (s : State)
        → d < size
        → size < n
        → IsIdle s
        → Ensures ⊥ (StaysAbsent quiet s) (apply_filter g change n d s)
    unfolding apply_filter
    apply_filter-StaysAbsent n d s h enough idle =
        walk_with-StaysAbsent (filter_visitor g change) true n d (forget_visited_diffs s)
          filter_visitor-Stays h enough idle

  option-IsAbsent :
      (o : Option ℕ) (d : ℕ) (k : Category) (s : State) (b : Enumerator)
      → IsAbsent b s
      → has b k ≡ false
      → IsAbsent b (add_to_option o k (add_to_category d k s))
  option-IsAbsent none d k s b a e = add_to_category-IsAbsent b d k s a e
  option-IsAbsent (some c) d k s b a e =
      add_to_category-IsAbsent b c k (add_to_category d k s) (add_to_category-IsAbsent b d k s a e)
        e

  option-Keeps :
      (o : Option ℕ) (d : ℕ) (k : Category) (s : State)
      → Keeps s (add_to_option o k (add_to_category d k s))
  option-Keeps none d k s x = refl
  option-Keeps (some c) d k s x = refl

  propagated_absent :
      (already : Bool) (d : ℕ) (ds : List ℕ) (s : State)
      → AllBelow size ds
      → Ensures ⊥ (λ t. Keeps s t × StaysAbsent quiet s t) (propagate_children g already d ds s)
  unfolding propagate_children
  propagated_absent already d [] s below = returns (λ x. refl, λ b q a. a)
  propagated_absent already d (i ∷ is) s below =
      let (node, e) = source already in
      let k = category_minus (s.category node) not_propagated in
      let o : Option ℕ = if already then none else g.canonical_diff d in
      rw (e, propagate_children)
        (Ensures-map
          (propagated_absent already d is (add_to_option o k (add_to_category d k s)) below.1)
          (λ t p. (
            λ x. p.0 x ∙ option-Keeps o d k s x,
            λ b q a. p.1 b q (
                option-IsAbsent o d k s b a
                  (minus_absent b (s.category node) not_propagated (a node).0)),
          )))
    where
      source : (a : Bool) → (node : ℕ) × ((if a then g.canonical_diff i else some i) ≡ some node)
      source true = let (c, e, p, q) = closed.canonical i below.0 in (c, e)
      source false = (i, refl)

  propagation-Stays : Stays g size (category_propagation_visitor g) (StaysAbsent quiet)
  unfolding category_propagation_visitor propagation_end
  propagation-Stays = record {
    same = λ s b q a. a;
    both = λ s t u p r b q a. r b q (p b q a);
    begins = λ d s h. returns (λ x. refl, λ b q a. a);
    visits = λ d pre s h. returns (λ x. refl, λ b q a. a);
    ends = λ d s h.
        after_seen g size closed d s _ h
          (λ already. propagated_absent already d (g.children_nodes d) s (closed.children d h));
    marks = λ s f b q a. a;
    flags = λ s f b q a. a;
  }

  pub propagate_categories-StaysAbsent :
      (n d : ℕ) (s : State)
      → d < size
      → size < n
      → IsIdle s
      → Ensures ⊥ (StaysAbsent quiet s) (propagate_categories g n d s)
  unfolding propagate_categories
  propagate_categories-StaysAbsent n d s h enough idle =
      walk_with-StaysAbsent (category_propagation_visitor g) true n d (forget_visited_diffs s)
        propagation-Stays h enough idle
