-- ===== src/EditScripts/Distance.antt =====
-- The edit distance of two sequences, against which the searches of `include/abg-diff-utils.h` are
-- measured: the least number of insertions and deletions.
use cyglibabigail.Base.{
  ℕ, zero, suc, ◌+◌, ◌≤◌, ◌<◌, Bool, true, false, if◌then◌else◌, ◌≡◌, refl, sym, ◌∙◌, arith,
  Bool-cases, inl, ◌==◌, ==_iff, leb, leb→le, inr,
}
use Prim.Native.Nat.{min}

module _ (m : ℕ → ℕ → Bool) where
  -- The distance of the first `i` elements from the first `j`, where `m` tells which elements match.
  unfoldable pub dist : ℕ → ℕ → ℕ
  dist zero j = j
  dist (suc i) zero = suc i
  dist (suc i) (suc j) =
      let edit = suc (min (dist (suc i) j) (dist i (suc j))) in
      if m i j then min (dist i j) edit else edit

  pub dist_zero_left : (j : ℕ) → dist 0 j ≡ j
  unfolding dist
  dist_zero_left j = refl

  pub dist_zero : (i : ℕ) → dist i 0 ≡ i
  unfolding dist
  dist_zero zero = refl
  dist_zero (suc i) = refl

  -- One more element costs at most one.
  pub dist-suc_left : (i j : ℕ) → dist (suc i) j ≤ suc (dist i j)
  unfolding dist
  dist-suc_left zero zero = omega arith
  dist-suc_left (suc i) zero = omega arith
  dist-suc_left i (suc j) = ground arith

  pub dist-suc_right : (i j : ℕ) → dist i (suc j) ≤ suc (dist i j)
  unfolding dist
  dist-suc_right zero j = omega arith
  dist-suc_right (suc i) j = ground arith

  -- And saves at most one; along a diagonal the distance does not fall.
  pub dist-le_left : (i j : ℕ) → dist i j ≤ suc (dist (suc i) j)
  unfolding dist
  dist-le_left i zero = omega (arith, dist_zero i)
  dist-le_left i (suc j) = ground (arith, dist-le_left i j, dist-suc_right i j)

  pub dist-le_right : (i j : ℕ) → dist i j ≤ suc (dist i (suc j))
  unfolding dist
  dist-le_right zero j = omega arith
  dist-le_right (suc i) j = ground (arith, dist-le_right i j, dist-suc_left i j)

  pub dist-le_diagonal : (i j : ℕ) → dist i j ≤ dist (suc i) (suc j)
  unfolding dist
  dist-le_diagonal i j = ground (arith, dist-le_left i j, dist-le_right i j)

  -- A match costs nothing; without one, an element is deleted or inserted.
  pub dist-match : (i j : ℕ) → m i j ≡ true → dist (suc i) (suc j) ≡ dist i j
  unfolding dist
  dist-match i j h = ground (arith, dist-le_left i j, dist-le_right i j)

  pub dist-mismatch :
      (i j : ℕ) → m i j ≡ false → dist (suc i) (suc j) ≡ suc (min (dist (suc i) j) (dist i (suc j)))
  unfolding dist
  dist-mismatch i j h = ground arith

  -- It is at least the difference of the numbers, and at most their sum.
  pub dist_bounds : (i j : ℕ) → (i ≤ dist i j + j) × (j ≤ dist i j + i) × (dist i j ≤ i + j)
  unfolding dist
  dist_bounds zero j = (omega arith, omega arith, omega arith)
  dist_bounds (suc i) zero = (omega arith, omega arith, omega arith)
  dist_bounds (suc i) (suc j) = (
    ground (arith, dist_bounds i j, dist_bounds (suc i) j, dist_bounds i (suc j)),
    ground (arith, dist_bounds i j, dist_bounds (suc i) j, dist_bounds i (suc j)),
    ground (arith, dist_bounds i j, dist_bounds (suc i) j, dist_bounds i (suc j)),
  )

  -- Further down a diagonal it is no less.
  pub dist-le_along : (i j i' j' : ℕ) → i + j' ≡ i' + j → i ≤ i' → dist i j ≤ dist i' j'
  dist-le_along zero zero zero zero e h = omega arith
  dist-le_along i j zero (suc j') e h =
      let f : i ≡ 0 = omega arith in let g : j ≡ suc j' = omega arith in rw (f, g) (omega arith)
  dist-le_along i j (suc i') zero e h =
      let f : i ≡ suc i' = omega arith in let g : j ≡ 0 = omega arith in rw (f, g) (omega arith)
  dist-le_along i j zero zero e h =
      let f : i ≡ 0 = omega arith in let g : j ≡ 0 = omega arith in rw (f, g) (omega arith)
  dist-le_along i j (suc i') (suc j') e h = elim (Bool-cases (i == suc i')) [
    | inl last ↦
        let f : i ≡ suc i' = (==_iff i (suc i')).0 last in
        let g : j ≡ suc j' = omega arith in rw (f, g) (omega arith)
    | inr before ↦
        omega (arith, dist-le_along i j i' j' (omega arith) (ground arith), dist-le_diagonal i' j')
  ]

  -- A parity that the sum of the two numbers has, and the distance.
  abbrev IsEvenSum : ℕ → ℕ → Type 0
  IsEvenSum a b = (h : ℕ) × (a + b ≡ h + h)

  pub dist_parity : (i j : ℕ) → IsEvenSum (dist i j) (i + j)
  unfolding dist
  dist_parity zero j = (j, omega arith)
  dist_parity (suc i) zero = (suc i, omega arith)
  dist_parity (suc i) (suc j) =
      let (p, ep) = dist_parity i j in
      let (q, eq) = dist_parity (suc i) j in
      let (r, er) = dist_parity i (suc j) in
      elim (Bool-cases (m i j)) [
        | inl h ↦ (suc p, omega (arith, dist-match i j h))
        | inr h ↦ elim (Bool-cases (leb (dist (suc i) j) (dist i (suc j)))) [
          | inl less ↦ (suc q, omega (arith, dist-mismatch i j h, leb→le _ _ less))
          | inr more ↦ (suc r, ground (arith, dist-mismatch i j h))
        ]
      ]

-- The distance depends on the matches of its elements alone.
pub dist_same :
    (m r : ℕ → ℕ → Bool) (a b : ℕ)
    → ((i j : ℕ) → i < a → j < b → m i j ≡ r i j)
    → dist m a b ≡ dist r a b
dist_same m r zero b h = omega (arith, dist_zero_left m b, dist_zero_left r b)
dist_same m r (suc a) zero h = omega (arith, dist_zero m (suc a), dist_zero r (suc a))
dist_same m r (suc a) (suc b) h =
    let both = dist_same m r a b (λ i j p q. h i j (omega arith) (omega arith)) in
    let left = dist_same m r (suc a) b (λ i j p q. h i j p (omega arith)) in
    let right = dist_same m r a (suc b) (λ i j p q. h i j (omega arith) q) in
    let here = h a b (omega arith) (omega arith) in
    elim (Bool-cases (m a b)) [
      | inl e ↦ omega (arith, dist-match m a b e, dist-match r a b (sym here ∙ e), both)
      | inr e ↦
          ground (arith, dist-mismatch m a b e, dist-mismatch r a b (sym here ∙ e), left, right)
    ]
