-- ===== src/EditScripts/Mirror.antt =====
-- The edit distance measured from both ends: the two measures of a point add up to at least the
-- whole, and exactly to it at some point of each distance.
use cyglibabigail.Base.{
  ℕ, zero, suc, ◌+◌, ◌-◌, ◌≤◌, Bool, true, leb, leb→le, ◌⊎◌, ◌<◌, ◌==◌, ==_iff, ◌≡◌, sym, ◌∙◌,
  arith, Bool-cases, inl, inr,
}
use mathlib.Core.Path.{subst}
use cyglibabigail.EditScripts.Distance.{
  dist, dist_zero, dist_zero_left, dist-suc_left, dist-suc_right, dist-match, dist-mismatch,
  dist_bounds,
}

-- `m` and `r` are the same matches, counted from the first and from the last elements.
abbrev pub Mirrors : (ℕ → ℕ → Bool) → (ℕ → ℕ → Bool) → ℕ → ℕ → Type 0
Mirrors m r a b = (i j i' j' : ℕ) → i + suc i' ≡ a → j + suc j' ≡ b → m i j ≡ r i' j'

pub Mirrors-sym : (m r : ℕ → ℕ → Bool) (a b : ℕ) → Mirrors m r a b → Mirrors r m a b
Mirrors-sym m r a b h i j i' j' e f = sym (h i' j' i j (omega arith) (omega arith))

-- A point where the two measures are `e` and what is left of the whole.
pub record Split (m r : ℕ → ℕ → Bool) (a b e : ℕ) : Type 0 where
  pub i : ℕ
  pub j : ℕ
  pub i' : ℕ
  pub j' : ℕ
  pub whole_i : i + i' ≡ a
  pub whole_j : j + j' ≡ b
  pub here : dist m i j ≡ e
  pub whole : dist m i j + dist r i' j' ≤ dist m a b

module _ (m r : ℕ → ℕ → Bool) (a b : ℕ) (mirrors : Mirrors m r a b) where
  -- Through no point is the way shorter than the whole.
  pub dist-le_through :
      (i j i' j' : ℕ) → i + i' ≡ a → j + j' ≡ b → dist m a b ≤ dist m i j + dist r i' j'
  dist-le_through i j zero zero e f =
      let p : i ≡ a = omega arith in let q : j ≡ b = omega arith in rw (p, q) (omega arith)
  dist-le_through i j zero (suc j') e f = omega (
    arith,
    dist-le_through i (suc j) zero j' e (omega arith),
    dist-suc_right m i j,
    dist_zero_left r j',
    dist_zero_left r (suc j'),
  )
  dist-le_through i j (suc i') zero e f = omega (
    arith,
    dist-le_through (suc i) j i' zero (omega arith) f,
    dist-suc_left m i j,
    dist_zero r (suc i'),
    dist_zero r i',
  )
  dist-le_through i j (suc i') (suc j') e f =
      let both = dist-le_through (suc i) (suc j) i' j' (omega arith) (omega arith) in
      let right = dist-le_through (suc i) j i' (suc j') (omega arith) f in
      let down = dist-le_through i (suc j) (suc i') j' e (omega arith) in
      elim (Bool-cases (r i' j')) [
        | inl h ↦
            let h' : m i j ≡ true = mirrors i j i' j' e f ∙ h in
            omega (arith, dist-match r i' j' h, dist-match m i j h', both)
        | inr h ↦
            ground (
              arith,
              dist-mismatch r i' j' h,
              right,
              down,
              dist-suc_left m i j,
              dist-suc_right m i j,
            )
      ]

-- The two measures of the whole agree.
pub dist-mirror : (m r : ℕ → ℕ → Bool) (a b : ℕ) → Mirrors m r a b → dist m a b ≡ dist r a b
dist-mirror m r a b h = omega (
  arith,
  dist-le_through m r a b h 0 0 a b (omega arith) (omega arith),
  dist-le_through r m a b (Mirrors-sym m r a b h) 0 0 a b (omega arith) (omega arith),
  dist_zero_left m 0,
  dist_zero_left r 0,
)

module _ (m r : ℕ → ℕ → Bool) (a b : ℕ) (mirrors : Mirrors m r a b) where
  -- From a point of a shortest way, back along it to the distance `e`.
  Split-from :
      (e i j i' j' : ℕ)
      → i + i' ≡ a
      → j + j' ≡ b
      → e ≤ dist m i j
      → dist m i j + dist r i' j' ≤ dist m a b
      → Split m r a b e
  Split-from e zero zero i' j' p q h w = record {
    i = 0;
    j = 0;
    i' = i';
    j' = j';
    whole_i = p;
    whole_j = q;
    here = omega (arith, dist_zero_left m 0);
    whole = w;
  }
  Split-from e zero (suc j) i' j' p q h w = elim (Bool-cases (dist m 0 (suc j) == e)) [
    | inl at_e ↦ record {
      i = 0;
      j = suc j;
      i' = i';
      j' = j';
      whole_i = p;
      whole_j = q;
      here = (==_iff _ e).0 at_e;
      whole = w;
    }
    | inr past ↦
        Split-from e zero j i' (suc j') p (omega arith)
          (ground (arith, dist_zero_left m j, dist_zero_left m (suc j)))
          (omega (arith, dist_zero_left m j, dist_zero_left m (suc j), dist-suc_right r i' j'))
  ]
  Split-from e (suc i) zero i' j' p q h w = elim (Bool-cases (dist m (suc i) 0 == e)) [
    | inl at_e ↦ record {
      i = suc i;
      j = 0;
      i' = i';
      j' = j';
      whole_i = p;
      whole_j = q;
      here = (==_iff _ e).0 at_e;
      whole = w;
    }
    | inr past ↦
        Split-from e i zero (suc i') j' (omega arith) q
          (ground (arith, dist_zero m i, dist_zero m (suc i)))
          (omega (arith, dist_zero m i, dist_zero m (suc i), dist-suc_left r i' j'))
  ]
  Split-from e (suc i) (suc j) i' j' p q h w = elim (Bool-cases (m i j)) [
    | inl match ↦
        let match' : r i' j' ≡ true = sym (mirrors i j i' j' (omega arith) (omega arith)) ∙ match in
        Split-from e i j (suc i') (suc j') (omega arith) (omega arith)
          (omega (arith, dist-match m i j match))
          (omega (arith, dist-match m i j match, dist-match r i' j' match'))
    | inr mismatch ↦ elim (Bool-cases (dist m (suc i) (suc j) == e)) [
      | inl at_e ↦ record {
        i = suc i;
        j = suc j;
        i' = i';
        j' = j';
        whole_i = p;
        whole_j = q;
        here = (==_iff _ e).0 at_e;
        whole = w;
      }
      | inr past ↦ elim (Bool-cases (leb (dist m (suc i) j) (dist m i (suc j)))) [
        | inl down ↦
            Split-from e (suc i) j i' (suc j') p (omega arith)
              (ground (arith, dist-mismatch m i j mismatch))
              (ground (arith, dist-mismatch m i j mismatch, dist-suc_right r i' j'))
        | inr right ↦
            Split-from e i (suc j) (suc i') j' (omega arith) q
              (ground (arith, dist-mismatch m i j mismatch))
              (ground (arith, dist-mismatch m i j mismatch, dist-suc_left r i' j'))
      ]
    ]
  ]

  -- Each distance up to the whole is met on a shortest way.
  pub Split-at : (e : ℕ) → e ≤ dist m a b → Split m r a b e
  Split-at e h =
      Split-from e a b 0 0 (omega arith) (omega arith) h (omega (arith, dist_zero_left r 0))

-- Nothing matches beyond the last elements.
abbrev pub Inside : (ℕ → ℕ → Bool) → ℕ → ℕ → Type 0
Inside m a b = (i j : ℕ) → m i j ≡ true → (i < a) × (j < b)

-- So a way that leaves the sequences is no shorter for it: beyond them each element costs one.
module _ (m : ℕ → ℕ → Bool) (a b : ℕ) where
  dist-le_right_by : (j k : ℕ) → dist m a (k + j) ≤ dist m a j + k
  dist-le_right_by j zero = let e : 0 + j ≡ j = omega arith in rw e (omega arith)
  dist-le_right_by j (suc k) =
      let e : suc k + j ≡ suc (k + j) = omega arith in
      rw e (omega (arith, dist-le_right_by j k, dist-suc_right m a (k + j)))

  dist-le_left_by : (i k : ℕ) → dist m (k + i) b ≤ dist m i b + k
  dist-le_left_by i zero = let e : 0 + i ≡ i = omega arith in rw e (omega arith)
  dist-le_left_by i (suc k) =
      let e : suc k + i ≡ suc (k + i) = omega arith in
      rw e (omega (arith, dist-le_left_by i k, dist-suc_left m (k + i) b))

  pub dist-le_beyond :
      Inside m a b → (i j : ℕ) → (a ≤ i) ⊎ (b ≤ j) → dist m a b + i + j ≤ dist m i j + a + b
  dist-le_beyond inside zero j h = omega (arith, dist_zero_left m j, dist_bounds m a b)
  dist-le_beyond inside (suc i) zero h = omega (arith, dist_zero m (suc i), dist_bounds m a b)
  dist-le_beyond inside (suc i) (suc j) h = elim (outside i j) [
    | inl (down_out, right_out, out) ↦ elim (Bool-cases (m i j)) [
      | inl match ↦ let both = inside i j match in absurd (ground arith)
      | inr mismatch ↦
          let down = dist-le_beyond inside (suc i) j down_out in
          let right = dist-le_beyond inside i (suc j) right_out in
          ground (arith, dist-mismatch m i j mismatch, down, right)
    ]
    | inr (left, above) ↦ elim h [
      | inl edge ↦
          let e : suc i ≡ a = omega arith in
          let f : (b - suc j) + suc j ≡ b = omega arith in
          let g = dist-le_right_by (suc j) (b - suc j) in
          let g' : dist m a b ≤ dist m (suc i) (suc j) + (b - suc j) =
            rw e (subst (λ x. dist m a x ≤ dist m a (suc j) + (b - suc j)) f g) in
          omega arith
      | inr edge ↦
          let e : suc j ≡ b = omega arith in
          let f : (a - suc i) + suc i ≡ a = omega arith in
          let g = dist-le_left_by (suc i) (a - suc i) in
          let g' : dist m a b ≤ dist m (suc i) (suc j) + (a - suc i) =
            rw e (subst (λ x. dist m x b ≤ dist m (suc i) b + (a - suc i)) f g) in
          omega arith
    ]
  ]
    where
      outside :
          (i j : ℕ)
          → ((a ≤ suc i) ⊎ (b ≤ j)) × ((a ≤ i) ⊎ (b ≤ suc j)) × ((a ≤ i) ⊎ (b ≤ j))
            ⊎ (i < a) × (j < b)
      outside i j = elim (Bool-cases (leb a i)) [
        | inl p ↦ let q = leb→le a i p in inl (inl (omega arith), inl q, inl q)
        | inr p ↦ elim (Bool-cases (leb b j)) [
          | inl p' ↦ let q = leb→le b j p' in inl (inr q, inr (omega arith), inr q)
          | inr p' ↦ inr (ground arith, ground arith)
        ]
      ]
