-- ===== src/Diff/Passes/Clearing.antt =====
-- `redundancy_clearing_visitor` of `src/abg-comparison.cc`, and `clear_redundancy_categorization`.
use cyglibabigail.Base.{
  ℕ, ◌<◌, Bool, true, false, not, ◌&&◌, ◌==◌, ◌≡◌, refl, ◌∙◌, inl, inr, arith, Bool-cases, ==_iff,
  Ensures, returns, Ensures-bind,
}
use cyglibabigail.Diff.Category.{Category, category_minus, redundant_category}
use cyglibabigail.Diff.Graph.{Diffs, State, update}
use cyglibabigail.Diff.Traverse.{seen}
use cyglibabigail.Diff.Traverse.Flags.{IsClosed, free-le}
use cyglibabigail.Diff.Traverse.Steps.{Stays}
use cyglibabigail.Diff.Traverse.Ends.{traverse-entered}
use cyglibabigail.Diff.Visitors.{
  clear_redundancy, redundancy_clearing_visitor, clear_redundancy_categorization, walk_with,
  fresh_visitor,
}
use cyglibabigail.Diff.Grows.{
  Enumerator, redundant, has, has-zip_with, only_redundant, nothing, BitGrows, CategoryGrows, Grows,
  Grows-refl, Grows-trans, Grows-same,
}
use cyglibabigail.Diff.Passes.Adding.{IsIdle}

-- From `t` back to `s` at most the REDUNDANT bit of inherited categories is gained.
abbrev pub Clears : State → State → Type 0
Clears s t = Grows only_redundant nothing t s

BitGrows-minus : (m p q : Bool) → (m ≡ false → q ≡ false) → BitGrows m (p && not q) p
BitGrows-minus true p q h = ground arith
BitGrows-minus false p q h = ground (arith, h refl)

only_redundant-has : (b : Enumerator) → only_redundant b ≡ false → has b redundant_category ≡ false
only_redundant-has redundant h = cc h
only_redundant-has _ h = refl

clear-CategoryGrows :
    (f : ℕ → Category) (d x : ℕ)
    → CategoryGrows only_redundant (update f d (category_minus (f d) redundant_category) x) (f x)
clear-CategoryGrows f d x b = elim (Bool-cases (x == d)) [
  | inl same ↦ rw same (
      rw ((==_iff x d).0 same) (
        rw (has-zip_with (λ p q. p && not q) b (f d) redundant_category) (
          BitGrows-minus (only_redundant b) (has b (f d)) (has b redundant_category)
            (only_redundant-has b))))
  | inr other ↦ rw other (unchanged_bit (only_redundant b) (has b (f x)))
]
  where
    unchanged_bit : (m p : Bool) → BitGrows m p p
    unchanged_bit true p = λ h. h
    unchanged_bit false p = refl

module _ (g : Diffs) (size : ℕ) (closed : IsClosed g size) where
  clearing-Stays : Stays g size (redundancy_clearing_visitor g) Clears
  unfolding redundancy_clearing_visitor clear_redundancy
  clearing-Stays = record {
    same = Grows-refl only_redundant nothing;
    both = λ s t u p q. Grows-trans only_redundant nothing u t s q p;
    begins = λ d s h. returns ((λ x. refl), Grows-refl only_redundant nothing s);
    visits = λ d pre s h. returns (
      (λ x. refl),
      record {
        inherited = λ x. clear-CategoryGrows s.category d x;
        own = λ x. (Grows-refl only_redundant nothing s).own x;
      },
    );
    ends = λ d s h. returns ((λ x. refl), Grows-refl only_redundant nothing s);
    marks = λ s f. Grows-same only_redundant nothing _ s refl refl;
    flags = λ s f. Grows-same only_redundant nothing _ s refl refl;
  }

  -- What `visit` leaves of a node.
  cleared_bit :
      (d : ℕ) (s : State)
      → (update s.category d (category_minus (s.category d) redundant_category) d).redundant ≡ false
  cleared_bit d s = let same : (d == d) ≡ true = (==_iff d d).1 refl in rw same (ground arith)

  -- A bit that is not gained stays cleared.
  stays_cleared : (p q : Bool) → BitGrows true q p → p ≡ false → q ≡ false
  stays_cleared p true h e = absurd (cc (h refl, e))
  stays_cleared p false h e = refl

  clearing_walk :
      (n d : ℕ) (s : State)
      → d < size
      → size < n
      → IsIdle s
      → Ensures ⊥
          (λ t. IsIdle t × Clears s t × ((t.category d).redundant ≡ false))
          (walk_with g (redundancy_clearing_visitor g) false n d s)
  unfolding walk_with redundancy_clearing_visitor clear_redundancy seen
  clearing_walk n d s h enough idle =
      let s₀ = fresh_visitor (record s { forbid_visiting_a_node_twice = false }) in
      let s₁ = record s₀ {
        category = update s.category d (category_minus (s.category d) redundant_category);
      } in
      let first : Clears s₀ s₁ = record {
        inherited = λ x. clear-CategoryGrows s.category d x;
        own = λ x. (Grows-refl only_redundant nothing s₀).own x;
      } in
      Ensures-bind
        (traverse-entered g size closed (redundancy_clearing_visitor g) Clears clearing-Stays n d s₀
          s₁ h (λ x hx on. cc (idle x)) (omega (arith, free-le size s.traversing)) refl refl refl)
        (λ (more, t) p.
          let q = Grows-trans only_redundant nothing t s₁ s₀ p.1 first in
          returns (
            λ x. p.0 x ∙ idle x,
            record { inherited = λ x b. q.inherited x b; own = λ x b. q.own x b },
            stays_cleared _ _ (p.1.inherited d redundant) (cleared_bit d s),
          ))

  -- On a closed graph of `size` nodes, cycles included, from one of its nodes, with no node being
  -- traversed and fuel above `size`, `clear_redundancy_categorization` ends with no assertion
  -- failing, no node being traversed and no node visited: the start node's inherited category has
  -- no REDUNDANT bit in the end, and on all nodes no bit is set, and none but the REDUNDANT bit of
  -- inherited categories is cleared.
  pub clear_redundancy_categorization-Clears :
      (n d : ℕ) (s : State)
      → d < size
      → size < n
      → IsIdle s
      → Ensures ⊥
          (λ t.
            IsIdle t
            × Clears s t
            × ((t.category d).redundant ≡ false)
            × ((x : ℕ) → t.visited x ≡ false))
          (clear_redundancy_categorization g n d s)
  unfolding clear_redundancy_categorization
  clear_redundancy_categorization-Clears n d s h enough idle =
      Ensures-bind (clearing_walk n d s h enough idle)
        (λ t p. returns (p.0, record { inherited = p.1.inherited; own = p.1.own }, p.2, λ x. refl))
