-- ===== src/Diff/Traverse/Flags.antt =====
-- The flags `traversing_` of the diff nodes of `src/abg-comparison.cc`, and how many nodes are free
-- to be entered: entering one makes them fewer.
use cyglibabigail.Base.{
  ℕ, zero, suc, ◌+◌, ◌≤◌, ◌<◌, Bool, true, false, List, [], ◌∷◌, some, if◌then◌else◌, ◌≡◌, refl,
  arith,
}
use cyglibabigail.Diff.Graph.{Diffs, State, update, traversing_node, is_traversing, set_traversing}

abbrev pub AllBelow : ℕ → List ℕ → Type 0
AllBelow size [] = Unit {0}
AllBelow size (d ∷ ds) = (d < size) × AllBelow size ds

-- The nodes are the numbers below `size`; each has a canonical node, which is its own canonical
-- node, as `diff_context::initialize_canonical_diff` sets it.
pub record IsClosed (g : Diffs) (size : ℕ) : Type 0 where
  pub children : (d : ℕ) → d < size → AllBelow size (g.children_nodes d)
  pub canonical :
      (d : ℕ)
      → d < size
      → (c : ℕ) × (g.canonical_diff d ≡ some c) × (c < size) × (g.canonical_diff c ≡ some c)

-- How many nodes below `k` are not being traversed.
pub free : ℕ → (ℕ → Bool) → ℕ
free zero f = 0
free (suc k) f = (if f k then 0 else 1) + free k f

pub free-le : (k : ℕ) (f : ℕ → Bool) → free k f ≤ k
unfolding free
free-le zero f = omega arith
free-le (suc k) f = ground (arith, free-le k f)

pub free_ext : (k : ℕ) (f h : ℕ → Bool) → ((x : ℕ) → f x ≡ h x) → free k f ≡ free k h
unfolding free
free_ext zero f h e = refl
free_ext (suc k) f h e = ground (arith, e k, free_ext k f h e)

free-le_update : (k : ℕ) (f : ℕ → Bool) (j : ℕ) → free k (update f j true) ≤ free k f
unfolding free
free-le_update zero f j = omega arith
free-le_update (suc k) f j = ground (arith, free-le_update k f j)

free-lt_update :
    (k : ℕ) (f : ℕ → Bool) (j : ℕ) → j < k → f j ≡ false → free k (update f j true) < free k f
unfolding free
free-lt_update zero f j h e = absurd (omega arith)
free-lt_update (suc k) f j h e = ground (arith, free-le_update k f j, free-lt_update k f j)

-- The flags `traversing_` are those of `s`.
abbrev pub Keeps : State → State → Type 0
Keeps s t = (x : ℕ) → t.traversing x ≡ s.traversing x

module _ (g : Diffs) (size : ℕ) where
  -- Where a node is traversing, so is its canonical node.
  abbrev pub IsConsistent : (ℕ → Bool) → Type 0
  IsConsistent f = (x : ℕ) → x < size → f x ≡ true → f (traversing_node g x) ≡ true

  pub Keeps-IsConsistent :
      (s t : State) → Keeps s t → IsConsistent s.traversing → IsConsistent t.traversing
  Keeps-IsConsistent s t k i x hx = ground (arith, i x hx, k x, k (traversing_node g x))

  module _ (closed : IsClosed g size) where
    pub traversing_node_canonical :
        (d : ℕ)
        → d < size
        → (traversing_node g d < size)
          × (traversing_node g (traversing_node g d) ≡ traversing_node g d)
    traversing_node_canonical d h =
        let (c, e, p, q) = closed.canonical d h in
        let here : traversing_node g d ≡ c = rw (e, traversing_node) in
        let there : traversing_node g c ≡ c = rw (q, traversing_node) in (rw here p, rw here there)

    -- The flags of a node that may be entered, set and put back.
    abbrev pub begun : (d : ℕ) (s : State) → State
    begun d s = set_traversing g true d s

    module _ (d : ℕ) (s : State) (h : d < size) (idle : is_traversing g d s ≡ false) where
      pub begun-free : free size (begun d s).traversing < free size s.traversing
      unfolding is_traversing
      begun-free =
          let f = s.traversing in
          let c = traversing_node g d in
          omega (
            arith,
            free-le_update size (update f c true) d,
            free-lt_update size f c (traversing_node_canonical d h).0 idle,
          )

      pub begun-IsConsistent : IsConsistent s.traversing → IsConsistent (begun d s).traversing
      unfolding is_traversing
      begun-IsConsistent i x hx =
          let own = (traversing_node_canonical d h).1 in ground (arith, i x hx)

      pub ended-Keeps :
          IsConsistent s.traversing
          → (t : State) → Keeps (begun d s) t
          → Keeps s (set_traversing g false d t)
      unfolding is_traversing
      ended-Keeps i t k x = ground (arith, k x, i d h)
