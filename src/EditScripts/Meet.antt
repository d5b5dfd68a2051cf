-- ===== src/EditScripts/Meet.antt =====
-- Where the furthest paths from the first elements meet those from the last: never before the
-- distances add up to the whole, and at once when they do.
use cyglibabigail.Base.{
  ℕ, suc, ◌+◌, ◌*◌, ◌-◌, ◌≤◌, Bool, ltb, leb→le, ◌≡◌, arith, Bool-cases, inl, inr,
}
use cyglibabigail.EditScripts.Distance.{dist, dist_bounds, dist_parity, dist-le_along}
use cyglibabigail.EditScripts.Mirror.{
  Mirrors, Split-at, Inside, dist-le_through, dist-le_beyond, dist-mirror,
}
use cyglibabigail.EditScripts.Furthest.{Furthest}
use cyglibabigail.EditScripts.Tables.{On}

-- The furthest point is behind each point of its diagonal at the distance.
Furthest-le :
    (m : ℕ → ℕ → Bool) (d i j i' j' : ℕ)
    → dist m i j ≤ d
    → Furthest m d i' j'
    → i + j' ≡ i' + j
    → i ≤ i'
Furthest-le m d i j i' j' near far on = elim (Bool-cases (ltb i' i)) [
  | inl short ↦
      absurd
        (omega (arith, far.1, dist-le_along m (suc i') (suc j') i j (omega arith) (ground arith)))
  | inr enough ↦ ground arith
]

-- On a diagonal near enough to the corner it is within the sequences.
Furthest-within :
    (m : ℕ → ℕ → Bool) (a b d e i j : ℕ)
    → Inside m a b
    → dist m a b ≡ d + e
    → Furthest m d i j
    → (i + b ≤ j + a + e) × (j + a ≤ i + b + e)
    → (i ≤ a) × (j ≤ b)
Furthest-within m a b d e i j inside whole far (near, near') = elim (Bool-cases (ltb a i)) [
  | inl past ↦ absurd (
      omega (
        arith,
        far.0,
        dist-le_beyond m a b inside i j (inl (ground arith)),
        leb→le (suc a) i (ground arith),
      ))
  | inr in_a ↦ elim (Bool-cases (ltb b j)) [
    | inl past ↦ absurd (
        omega (
          arith,
          far.0,
          dist-le_beyond m a b inside i j (inr (ground arith)),
          leb→le (suc b) j (ground arith),
        ))
    | inr in_b ↦ (ground arith, ground arith)
  ]
]

module _ (m r : ℕ → ℕ → Bool) (a b : ℕ) (mirrors : Mirrors m r a b) where
  -- Paths that meet or pass each other on a diagonal are no shorter than the whole; the first ends
  -- at the distances that they have.
  pub dist-le_met :
      (d e i j i' j' : ℕ)
      → dist m i j ≤ d
      → dist r i' j' ≤ e
      → i ≤ a
      → j ≤ b
      → a ≤ i + i'
      → i + i' + b ≡ j + j' + a
      → (dist m a b ≤ d + e)
        × (dist r (a - i) (b - j) ≤ e)
        × (dist m a b ≤ dist m i j + dist r (a - i) (b - j))
  dist-le_met d e i j i' j' f g in_a in_b over on =
      let t = dist-le_through m r a b mirrors i j (a - i) (b - j) (omega arith) (omega arith) in
      let l = dist-le_along r (a - i) (b - j) i' j' (omega arith) (omega arith) in
      (omega arith, omega arith, t)

  -- When the distances add up to the whole, there are diagonals, counted in rounds from both ends, on
  -- which the furthest points are within the sequences and meet.
  pub record Meeting (d e : ℕ) : Type 0 where
    pub t : ℕ
    pub t' : ℕ
    pub in_d : t ≤ d
    pub in_e : t' ≤ e
    pub diagonal : 2 * t + e + b ≡ 2 * t' + a + d
    pub within : (i j : ℕ) → On d (2 * t) i j → Furthest m d i j → (i ≤ a) × (j ≤ b)
    pub within' : (i j : ℕ) → On (2 * t') e i j → Furthest r e i j → (i ≤ a) × (j ≤ b)
    pub meet :
        (i j i' j' : ℕ)
        → On d (2 * t) i j
        → Furthest m d i j
        → On (2 * t') e i' j'
        → Furthest r e i' j'
        → a ≤ i + i'

  pub meeting : (d e : ℕ) → Inside m a b → Inside r a b → dist m a b ≡ d + e → Meeting d e
  meeting d e inside inside' whole =
      let s = Split-at m r a b mirrors d (omega arith) in
      let through = dist-le_through m r a b mirrors s.i s.j s.i' s.j' s.whole_i s.whole_j in
      let rest : dist r s.i' s.j' ≡ e = omega (arith, s.here, s.whole) in
      let (h, even) = dist_parity m s.i s.j in
      let (h', even') = dist_parity r s.i' s.j' in
      let bounds = dist_bounds m s.i s.j in
      let bounds' = dist_bounds r s.i' s.j' in
      let same = dist-mirror m r a b mirrors in
      record {
        t = h - s.j;
        t' = h' - s.i';
        in_d = omega (arith, s.here);
        in_e = omega arith;
        diagonal = omega (arith, s.here, s.whole_i, s.whole_j);
        within =
            λ i j on far. Furthest-within m a b d e i j inside whole far (omega arith, omega arith);
        within' = λ i j on far.
            Furthest-within r a b e d i j inside' (omega arith) far (omega arith, omega arith);
        meet = λ i j i' j' on far on' far'.
            let p = Furthest-le m d s.i s.j i j (omega (arith, s.here)) far (omega arith) in
            let p' = Furthest-le r e s.i' s.j' i' j' (omega (arith, rest)) far' (omega arith) in
            omega (arith, s.whole_i);
      }
