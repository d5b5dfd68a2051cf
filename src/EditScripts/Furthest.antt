-- ===== src/EditScripts/Furthest.antt =====
-- The furthest reaching paths of `include/abg-diff-utils.h` as points: the last of a diagonal at a
-- distance, and the points that a further edit leads to.
use cyglibabigail.Base.{ℕ, suc, ◌+◌, ◌≤◌, ◌<◌, Bool, false, ◌≡◌, arith}
use cyglibabigail.EditScripts.Distance.{
  dist, dist_zero, dist-mismatch, dist-suc_left, dist-suc_right, dist_bounds, dist-le_along,
}
use cyglibabigail.EditScripts.Follow.{Run, dist-Run}

-- The point behind `i` and `j` elements is the last of its diagonal at a distance of at most `d`.
abbrev pub Furthest : (ℕ → ℕ → Bool) → ℕ → ℕ → ℕ → Type 0
Furthest m d i j = (dist m i j ≤ d) × (d < dist m (suc i) (suc j))

-- A point from which the way along the diagonal leads to the furthest one: what lies beside the
-- diagonal from there on is too far away for a shorter way.
pub record Start (m : ℕ → ℕ → Bool) (d i₀ j₀ : ℕ) : Type 0 where
  pub near : dist m i₀ j₀ ≤ d
  pub above : (i j : ℕ) → i₀ ≤ i → i + j₀ ≡ i₀ + j → d ≤ dist m (suc i) j
  pub below : (i j : ℕ) → i₀ ≤ i → i + j₀ ≡ i₀ + j → d ≤ dist m i (suc j)

module _ (m : ℕ → ℕ → Bool) where
  pub Start-Furthest :
      (d i j r : ℕ)
      → Start m d i j
      → Run m i j r
      → m (r + i) (r + j) ≡ false
      → Furthest m d (r + i) (r + j)
  Start-Furthest d i j r s run stops =
      let p = s.above (r + i) (r + j) (omega arith) (omega arith) in
      let q = s.below (r + i) (r + j) (omega arith) (omega arith) in
      (
        omega (arith, s.near, dist-Run m i j r run),
        ground (arith, p, q, dist-mismatch m (r + i) (r + j) stops),
      )

  pub Start-zero : Start m 0 0 0
  Start-zero = record {
    near = omega (arith, dist_zero m 0);
    above = λ i j h e. omega arith;
    below = λ i j h e. omega arith;
  }

  -- Beyond the furthest point of a diagonal the distance is larger.
  pub Furthest-beyond :
      (e i j i' j' : ℕ) → Furthest m e i j → i < i' → i' + j ≡ i + j' → suc e ≤ dist m i' j'
  Furthest-beyond e i j i' j' f h g =
      omega (arith, f.1, dist-le_along m (suc i) (suc j) i' j' (omega arith) (omega arith))

  -- From the diagonal above the first, with no diagonal below.
  pub Start-first : (e i j : ℕ) → Furthest m e i j → suc j ≡ i + suc e → Start m (suc e) i (suc j)
  Start-first e i j f k = record {
    near = omega (arith, f.0, dist-suc_right m i j);
    above = λ i' j' h g. Furthest-beyond e i j (suc i') j' f (omega arith) (omega arith);
    below = λ i' j' h g. omega (arith, (dist_bounds m i' (suc j')));
  }

  -- From the diagonal below the last, with no diagonal above.
  pub Start-last : (e i j : ℕ) → Furthest m e i j → suc i ≡ j + suc e → Start m (suc e) (suc i) j
  Start-last e i j f k = record {
    near = omega (arith, f.0, dist-suc_left m i j);
    above = λ i' j' h g. omega (arith, (dist_bounds m (suc i') j'));
    below = λ i' j' h g. Furthest-beyond e i j i' (suc j') f (omega arith) (omega arith);
  }

  -- From the diagonal above, whose point is the further one.
  pub Start-down :
      (e i j i' j' : ℕ)
      → Furthest m e i j
      → Furthest m e i' j'
      → i + j' ≡ i' + j + 2
      → i' < i
      → Start m (suc e) i (suc j)
  Start-down e i j i' j' f f' between o = record {
    near = omega (arith, f.0, dist-suc_right m i j);
    above = λ x y h g. Furthest-beyond e i j (suc x) y f (omega arith) (omega arith);
    below = λ x y h g. Furthest-beyond e i' j' x (suc y) f' (omega arith) (omega arith);
  }

  -- From the diagonal below.
  pub Start-right :
      (e i j i' j' : ℕ)
      → Furthest m e i j
      → Furthest m e i' j'
      → i + j' ≡ i' + j + 2
      → i ≤ i'
      → Start m (suc e) (suc i') j'
  Start-right e i j i' j' f f' between o = record {
    near = omega (arith, f'.0, dist-suc_left m i' j');
    above = λ x y h g. Furthest-beyond e i j (suc x) y f (omega arith) (omega arith);
    below = λ x y h g. Furthest-beyond e i' j' x (suc y) f' (omega arith) (omega arith);
  }
