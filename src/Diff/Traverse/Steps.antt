-- ===== src/Diff/Traverse/Steps.antt =====
-- The parts of `diff::traverse` behind the entry of a node: each ends, leaves the flags `traversing_`
-- as they were, and keeps what the visitor keeps.
use cyglibabigail.Base.{
  ℕ, ◌<◌, Bool, true, false, not, ◌&&◌, List, [], ◌∷◌, if◌then◌else◌, ◌≡◌, refl, ◌∙◌, inl, inr,
  arith, Bool-cases, Outcome, returned, Ensures, returns, Ensures-bind, Ensures-map,
}
use cyglibabigail.Diff.Graph.{
  Diffs, State, update, diff_has_been_visited, mark_diff_as_visited, traversing_node, is_traversing,
  begin_traversing, end_traversing,
}
use cyglibabigail.Diff.Traverse.{
  Visitor, traverse_children, leave, seen, enter, visit_children, visit_after,
}
use cyglibabigail.Diff.Traverse.Flags.{AllBelow, IsClosed, Keeps, IsConsistent, begun, ended-Keeps}

-- What a visitor does to the state: it leaves the flags alone, stays in the relation `R`, and does
-- not abort on the nodes of the graph.
pub record Stays (g : Diffs) (size : ℕ) (v : Visitor) (R : State → State → Type 0) : Type 0 where
  pub same : (s : State) → R s s
  pub both : (s t u : State) → R s t → R t u → R s u
  pub begins :
      (d : ℕ) (s : State) → d < size → Ensures ⊥ (λ t. Keeps s t × R s t) (v.visit_begin d s)
  pub visits :
      (d : ℕ) (pre : Bool) (s : State)
      → d < size
      → Ensures ⊥ (λ p. Keeps s p.1 × R s p.1) (v.visit d pre s)
  pub ends : (d : ℕ) (s : State) → d < size → Ensures ⊥ (λ t. Keeps s t × R s t) (v.visit_end d s)
  pub marks : (s : State) (f : ℕ → Bool) → R s (record s { visited = f })
  pub flags : (s : State) (f : ℕ → Bool) → R s (record s { traversing = f })

module _ (g : Diffs) (size : ℕ) (closed : IsClosed g size) (v : Visitor)
    (R : State → State → Type 0) (stays : Stays g size v R) where
  abbrev pub After : State → Bool × State → Type 0
  After s p = Keeps s p.1 × R s p.1

  pub After-trans : (s t u : State) → Keeps s t × R s t → Keeps t u × R t u → Keeps s u × R s u
  After-trans s t u p q = (λ x. q.0 x ∙ p.0 x, stays.both s t u p.1 q.1)

  pub mark-Ensures :
      (d : ℕ) (s : State)
      → d < size
      → Ensures ⊥ (λ t. Keeps s t × R s t) (mark_diff_as_visited g d s)
  unfolding mark_diff_as_visited
  mark-Ensures d s h =
      let (c, e, p, q) = closed.canonical d h in
      rw (e, mark_diff_as_visited) (returns ((λ x. refl), stays.marks s (update s.visited c true)))

  pub leave-Ensures :
      (mark : Bool) (d : ℕ) (s : State)
      → d < size
      → Ensures ⊥ (λ t. Keeps s t × R s t) (leave g v mark d s)
  unfolding leave
  leave-Ensures false d s h = Ensures-bind (stays.ends d s h) (λ t p. returns p)
  leave-Ensures true d s h =
      Ensures-bind (stays.ends d s h)
        λ t p. Ensures-map (mark-Ensures d t h) (λ u q. After-trans s t u p q)

  pub seen-Ensures : (d : ℕ) (s : State) → d < size → Ensures ⊥ (λ _. Unit {0}) (seen g v d s)
  unfolding seen diff_has_been_visited
  seen-Ensures d s h = elim (Bool-cases s.forbid_visiting_a_node_twice) [
    | inl once ↦
        rw once
          (let (c, e, p, q) = closed.canonical d h in rw (e, diff_has_been_visited) (returns tt))
    | inr often ↦ rw often (returns tt)
  ]

  pub enter-Ensures :
      (already : Bool) (d : ℕ) (s : State) → d < size → Ensures ⊥ (After s) (enter g v already d s)
  unfolding enter
  enter-Ensures true d s h = returns ((λ x. refl), stays.same s)
  enter-Ensures false d s h = stays.visits d true s h

  traverse_children-Ensures :
      (walk : ℕ → State → Outcome (Bool × State)) (ds : List ℕ) (s : State)
      → AllBelow size ds
      → ((d : ℕ) (t : State) → d < size → Keeps s t → Ensures ⊥ (After t) (walk d t))
      → Ensures ⊥ (After s) (traverse_children walk ds s)
  unfolding traverse_children
  traverse_children-Ensures walk [] s b h = returns ((λ x. refl), stays.same s)
  traverse_children-Ensures walk (d ∷ ds) s b h =
      Ensures-bind (h d s b.0 (λ x. refl)) λ (more, t) p.
        elim more
          as (λ more.
            Ensures ⊥ (After s)
              (elim more [ false ↦ returned (false, t) | true ↦ traverse_children walk ds t ])) [
                | false ↦ returns p
                | true ↦
                    Ensures-map
                      (traverse_children-Ensures walk ds t b.1
                        (λ e u k q. h e u k (λ x. q x ∙ p.0 x)))
                      (λ r q. After-trans s t r.1 p q)
              ]

  -- The walk of the children of `d` behind `begin_traversing`.
  abbrev pub Walks : (ℕ → State → Outcome (Bool × State)) → ℕ → State → Type 0
  Walks walk d s =
      is_traversing g d s ≡ false
      → (e : ℕ) (t : State) → e < size
      → Keeps (begun g size closed d s) t
      → Ensures ⊥ (After t) (walk e t)

  -- `end_traversing` behind a walk of the children.
  end-Ensures :
      (d : ℕ) (s t : State)
      → d < size
      → is_traversing g d s ≡ false
      → IsConsistent g size s.traversing
      → Keeps (begun g size closed d s) t × R s t
      → Ensures ⊥ (λ u. Keeps s u × R s u) (end_traversing g d t)
  unfolding end_traversing
  end-Ensures d s t h idle i p =
      let going : is_traversing g d t ≡ true =
        unfold is_traversing in ground (arith, p.0 (traversing_node g d)) in
      rw going (
        returns (
          ended-Keeps g size closed d s h idle i t p.0,
          stays.both s t _ p.1
              (stays.flags t (update (update t.traversing (traversing_node g d) false) d false)),
        ))

  -- A node whose child returned false is left before its flags are put back.
  left-Ensures :
      (more mark : Bool) (d : ℕ) (s t : State)
      → d < size
      → Keeps s t × R s t
      → Ensures ⊥ (λ u. Keeps s u × R s u) (if more then returned t else leave g v mark d t)
  left-Ensures true mark d s t h p = returns p
  left-Ensures false mark d s t h p =
      Ensures-map (leave-Ensures mark d t h) (λ u q. After-trans s t u p q)

  pub visit_children-Ensures :
      (walk : ℕ → State → Outcome (Bool × State)) (already mark : Bool) (d : ℕ) (s : State)
      → d < size
      → IsConsistent g size s.traversing
      → Walks walk d s
      → Ensures ⊥ (After s) (visit_children g v walk already mark d s)
  unfolding visit_children begin_traversing
  visit_children-Ensures walk already mark d s h i walks =
      elim (Bool-cases (not s.skip_children_visiting && not (is_traversing g d s) && not already)) [
        | inr no_walk ↦ rw no_walk (returns ((λ x. refl), stays.same s))
        | inl goes ↦ rw goes (
            let idle : is_traversing g d s ≡ false = ground arith in
            rw idle (
              Ensures-bind
                (traverse_children-Ensures walk (g.children_nodes d) (begun g size closed d s)
                  (closed.children d h) (walks idle))
                λ (more, t) p.
                  Ensures-bind (left-Ensures more mark d (begun g size closed d s) t h p) λ u q.
                    Ensures-bind
                      (end-Ensures d s u h idle i (
                        q.0,
                        stays.both s (begun g size closed d s) u
                            (stays.flags s (begun g size closed d s).traversing) q.1,
                      ))
                      (λ w r. returns r)))
      ]

  pub visit_after-Ensures :
      (already mark : Bool) (d : ℕ) (s : State)
      → d < size
      → Ensures ⊥ (After s) (visit_after g v already mark d s)
  unfolding visit_after
  visit_after-Ensures already mark d s h =
      Ensures-bind (stays.visits d false s h)
        λ (more, t) p. Ensures-bind (leave-Ensures _ d t h) λ u q. returns (After-trans s t u p q)
