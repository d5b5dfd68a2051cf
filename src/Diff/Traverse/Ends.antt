-- ===== src/Diff/Traverse/Ends.antt =====
-- A walk over a finite graph of diff nodes ends, whatever cycles there are: the children of a node
-- are not walked while a node of its class is being traversed.
use cyglibabigail.Base.{
  ℕ, zero, suc, ◌<◌, Bool, true, false, not, ◌≡◌, refl, arith, Outcome, returned, ◌>>=◌, Ensures,
  returns, Ensures-bind, Ensures-map,
}
use cyglibabigail.Diff.Graph.{Diffs, State}
use cyglibabigail.Diff.Traverse.{
  Visitor, leave, visit_children, visit_after, traverse_begun, traverse_node, traverse, seen, enter,
}
use cyglibabigail.Diff.Traverse.Flags.{
  IsClosed, free, free_ext, Keeps, IsConsistent, Keeps-IsConsistent, begun, begun-free,
  begun-IsConsistent,
}
use cyglibabigail.Diff.Traverse.Steps.{
  Stays, After, After-trans, leave-Ensures, seen-Ensures, enter-Ensures, Walks,
  visit_children-Ensures, visit_after-Ensures,
}

module _ (g : Diffs) (size : ℕ) (closed : IsClosed g size) (v : Visitor)
    (R : State → State → Type 0) (stays : Stays g size v R) where
  -- What stands behind `visit(this, true)`, where that returned true.
  abbrev behind_enter :
      (ℕ → State → Outcome (Bool × State)) → Bool → Bool → ℕ → State → Outcome (Bool × State)
  behind_enter walk already mark d s = visit_children g v walk already mark d s >>= λ (more, t).
      elim more [ false ↦ returned (false, t) | true ↦ visit_after g v already mark d t ]

  behind_enter-Ensures :
      (walk : ℕ → State → Outcome (Bool × State)) (already mark : Bool) (d : ℕ) (s : State)
      → d < size
      → IsConsistent g size s.traversing
      → Walks g size closed v R stays walk d s
      → Ensures ⊥ (After g size closed v R stays s) (behind_enter walk already mark d s)
  behind_enter-Ensures walk already mark d s h i walks =
      Ensures-bind (visit_children-Ensures g size closed v R stays walk already mark d s h i walks)
        λ (more, t) q.
          elim more
            as (λ more. Ensures ⊥ (After g size closed v R stays s) (elim more [
              | false ↦ returned (false, t)
              | true ↦ visit_after g v already mark d t
            ])) [
              | false ↦ returns q
              | true ↦
                  Ensures-map (visit_after-Ensures g size closed v R stays already mark d t h)
                    (λ w k. After-trans g size closed v R stays s t w.1 q k)
            ]

  -- A node from `already_visited` on, behind its `visit_begin`.
  entered-Ensures :
      (walk : ℕ → State → Outcome (Bool × State)) (d : ℕ) (s : State)
      → d < size
      → IsConsistent g size s.traversing
      → ((t : State) → Keeps s t → Walks g size closed v R stays walk d t)
      → Ensures ⊥ (After g size closed v R stays s) (traverse_begun g v walk d s)
  unfolding traverse_begun
  entered-Ensures walk d s h i walks =
      Ensures-bind (seen-Ensures g size closed v R stays d s h) λ already _.
        Ensures-bind (enter-Ensures g size closed v R stays already d s h) λ (entered, s₂) p.
          let mark = not s.do_not_mark_visited in
          elim entered
            as (λ entered. Ensures ⊥ (After g size closed v R stays s) (elim entered [
              | false ↦ (leave g v mark d s₂ >>= λ s₃. returned (false, s₃))
              | true ↦ behind_enter walk already mark d s₂
            ])) [
              | false ↦
                  Ensures-bind (leave-Ensures g size closed v R stays mark d s₂ h)
                    (λ s₃ q. returns (After-trans g size closed v R stays s s₂ s₃ p q))
              | true ↦
                  Ensures-map
                    (behind_enter-Ensures walk already mark d s₂ h
                      (Keeps-IsConsistent g size s s₂ p.0 i) (walks s₂ p.0))
                    (λ r q. After-trans g size closed v R stays s s₂ r.1 p q)
            ]

  -- The children of a node are walked with less fuel, and fewer nodes are free.
  Walks-traverse_inner :
      (n : ℕ)
      → ((d : ℕ) (s : State)
          → d < size
          → IsConsistent g size s.traversing
          → free size s.traversing < n
          → Ensures ⊥ (After g size closed v R stays s) (traverse g v n d s))
      → (d : ℕ) (s : State) → d < size
      → IsConsistent g size s.traversing
      → free size s.traversing < suc n
      → (t : State) → Keeps s t
      → Walks g size closed v R stays (traverse g v n) d t
  Walks-traverse_inner n walks d s h i enough t k idle e u he ku =
      walks e u he
        (Keeps-IsConsistent g size (begun g size closed d t) u ku
          (begun-IsConsistent g size closed d t h idle (Keeps-IsConsistent g size s t k i)))
        (omega (
          arith,
          begun-free g size closed d t h idle,
          free_ext size u.traversing (begun g size closed d t).traversing ku,
          free_ext size t.traversing s.traversing k,
        ))

  -- With fuel above the number of nodes that are not being traversed, the walk ends: no assertion
  -- fails, the flags `traversing_` are as before, and the state stays in the relation `R`.
  pub traverse-Ensures :
      (n d : ℕ) (s : State)
      → d < size
      → IsConsistent g size s.traversing
      → free size s.traversing < n
      → Ensures ⊥ (After g size closed v R stays s) (traverse g v n d s)
  unfolding traverse traverse_node
  traverse-Ensures zero d s h i enough = absurd (omega arith)
  traverse-Ensures (suc n) d s h i enough = Ensures-bind (stays.begins d s h) λ s₁ p.
      Ensures-map
        (entered-Ensures (traverse g v n) d s₁ h (Keeps-IsConsistent g size s s₁ p.0 i) (
          Walks-traverse_inner n (traverse-Ensures n) d s₁ h (Keeps-IsConsistent g size s s₁ p.0 i)
            (omega (arith, free_ext size s₁.traversing s.traversing p.0))))
        (λ q r. After-trans g size closed v R stays s s₁ q.1 p r)

  -- The same, from the state that `visit_begin` leaves at the first node.
  pub traverse-begun :
      (n d : ℕ) (s s₁ : State)
      → d < size
      → IsConsistent g size s₁.traversing
      → free size s₁.traversing < n
      → v.visit_begin d s ≡ returned s₁
      → Ensures ⊥ (After g size closed v R stays s₁) (traverse g v n d s)
  unfolding traverse traverse_node
  traverse-begun zero d s s₁ h i enough e = absurd (omega arith)
  traverse-begun (suc n) d s s₁ h i enough e = rw e (
      entered-Ensures (traverse g v n) d s₁ h i
        (Walks-traverse_inner n (traverse-Ensures n) d s₁ h i enough))

  -- The same, from the state that `visit` leaves at the first node, which has not been visited.
  pub traverse-entered :
      (n d : ℕ) (s s₁ : State)
      → d < size
      → IsConsistent g size s₁.traversing
      → free size s₁.traversing < n
      → v.visit_begin d s ≡ returned s
      → seen g v d s ≡ returned false
      → v.visit d true s ≡ returned (true, s₁)
      → Ensures ⊥ (After g size closed v R stays s₁) (traverse g v n d s)
  unfolding traverse traverse_node traverse_begun enter
  traverse-entered zero d s s₁ h i enough e f k = absurd (omega arith)
  traverse-entered (suc n) d s s₁ h i enough e f k =
      rw (e, f, k)
        (behind_enter-Ensures (traverse g v n) false (not s.do_not_mark_visited) d s₁ h i
          (Walks-traverse_inner n (traverse-Ensures n) d s₁ h i enough s₁ (λ x. refl)))
