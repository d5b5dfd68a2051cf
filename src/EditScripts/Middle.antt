-- ===== src/EditScripts/Middle.antt =====
-- The middle snake that `compute_middle_snake` of `include/abg-diff-utils.h` is to find, and that paths
-- which overlap give one.
use cyglibabigail.Base.{
  ℕ, zero, suc, ◌+◌, ◌-◌, ◌*◌, ◌≤◌, ◌<◌, Bool, true, false, ◌≡◌, refl, sym, ap, ◌∙◌, arith,
  sub_ℕ_eq,
}
use mathlib.Core.Path.{subst}
use cyglibabigail.EditScripts.Points.{point, Snake, snake_end_points}
use cyglibabigail.EditScripts.Distance.{dist}
use cyglibabigail.EditScripts.Mirror.{Mirrors, Mirrors-sym, dist-mirror}
use cyglibabigail.EditScripts.Follow.{Run, dist-Run, at, back, grid, mirror_grid, grid-Mirrors}
use cyglibabigail.EditScripts.Ends.{FrCame}
use cyglibabigail.EditScripts.Meet.{dist-le_met}

-- A run of matches seen from the other end.
Run-last :
    (m : ℕ → ℕ → Bool) (i j r : ℕ) → Run m i j r → m (r + i) (r + j) ≡ true → Run m i j (suc r)
Run-last m i j zero h e =
    let p : 0 + i ≡ i = omega arith in let q : 0 + j ≡ j = omega arith in (rw (sym p, sym q) e, tt)
Run-last m i j (suc r) h e =
    let p : suc r + i ≡ r + suc i = omega arith in
    let q : suc r + j ≡ r + suc j = omega arith in
    (
      h.0,
      Run-last m (suc i) (suc j) r h.1
          (sym (ap (λ x. m x (suc r + j)) p ∙ ap (m (r + suc i)) q) ∙ e),
    )

Run-Mirrors :
    (m r : ℕ → ℕ → Bool) (a b : ℕ)
    → Mirrors m r a b
    → (i j n : ℕ) → Run r i j n
    → n + i ≤ a
    → n + j ≤ b
    → Run m (a - (n + i)) (b - (n + j)) n
Run-Mirrors m r a b h i j zero run in_a in_b = tt
Run-Mirrors m r a b h i j (suc n) run in_a in_b =
    let p : suc n + i ≡ n + suc i = omega arith in
    let q : suc n + j ≡ n + suc j = omega arith in
    rw (p, q)
      (Run-last m (a - (n + suc i)) (b - (n + suc j)) n
        (Run-Mirrors m r a b h (suc i) (suc j) n run.1 (omega arith) (omega arith))
        (h _ _ i j (omega arith) (omega arith) ∙ run.0))

module _ (a b : ℕ) (eq : ℕ → ℕ → Bool) where
  -- The snake leads along `r` matches from a point to another, on a shortest way of `n` edits.
  pub record Middle (s : Snake) (n : ℕ) : Type 0 where
    pub i : ℕ
    pub j : ℕ
    pub r : ℕ
    pub ends : snake_end_points s ≡ (point (at i) (at j), point (at (r + i)) (at (r + j)))
    pub there : s.intermediate.is_empty ≡ false
    pub in_a : r + i ≤ a
    pub in_b : r + j ≤ b
    pub run : Run (grid a b eq) i j r
    pub before : ℕ
    pub after : ℕ
    pub at_before : dist (grid a b eq) i j ≡ before
    pub at_after : dist (mirror_grid a b eq) (a - (r + i)) (b - (r + j)) ≡ after
    pub sum : before + after ≡ n
    pub shortest : n ≡ dist (grid a b eq) a b
    pub split : 2 ≤ n → (1 ≤ before) × (1 ≤ after)
    pub edge :
        n ≡ 1
        → (s.is_forward ≡ true)
          × (s.intermediate ≡ point (at i) (at j))
          × FrCame a b eq 1 i j s.begin

  -- A forward snake of step `suc e` that overlaps a path of step `e` in reverse.
  pub forward-Middle :
      (s : Snake) (e i₀ j₀ r i' j' : ℕ)
      → s.intermediate ≡ point (at i₀) (at j₀)
      → s.end ≡ point (at (r + i₀)) (at (r + j₀))
      → s.is_forward ≡ true
      → FrCame a b eq (suc e) i₀ j₀ s.begin
      → Run (grid a b eq) i₀ j₀ r
      → r + i₀ ≤ a
      → r + j₀ ≤ b
      → dist (grid a b eq) (r + i₀) (r + j₀) ≤ suc e
      → dist (mirror_grid a b eq) i' j' ≤ e
      → a ≤ r + i₀ + i'
      → r + i₀ + i' + b ≡ r + j₀ + j' + a
      → 2 * e < dist (grid a b eq) a b
      → Middle s (2 * suc e - 1)
  unfolding snake_end_points
  forward-Middle s e i₀ j₀ r i' j' mid end fwd came run in_a in_b near near' over on far =
      let (whole, rest, through) =
        dist-le_met (grid a b eq) (mirror_grid a b eq) a b (grid-Mirrors a b eq) (suc e) e (r + i₀)
          (r + j₀) i' j' near near' in_a in_b over on in
      let same = dist-Run (grid a b eq) i₀ j₀ r run in
      record {
        i = i₀;
        j = j₀;
        r = r;
        ends = rw (fwd, mid, end) refl;
        there = rw mid refl;
        in_a = in_a;
        in_b = in_b;
        run = run;
        before = suc e;
        after = e;
        at_before = omega arith;
        at_after = omega arith;
        sum = omega arith;
        shortest = omega arith;
        split = λ h. (omega arith, omega arith);
        edge = λ h.
            let z : e ≡ 0 = omega arith in
            (fwd, mid, subst (λ u. FrCame a b eq (suc u) i₀ j₀ s.begin) z came);
      }

  -- A reverse snake of step `d` that overlaps a forward path of step `d`.
  pub reverse-Middle :
      (s : Snake) (d i₀ j₀ r i j : ℕ)
      → s.intermediate ≡ point (back a i₀) (back b j₀)
      → s.end ≡ point (back a (r + i₀)) (back b (r + j₀))
      → s.is_forward ≡ false
      → Run (mirror_grid a b eq) i₀ j₀ r
      → r + i₀ ≤ a
      → r + j₀ ≤ b
      → dist (mirror_grid a b eq) (r + i₀) (r + j₀) ≤ d
      → dist (grid a b eq) i j ≤ d
      → a ≤ i + (r + i₀)
      → i + (r + i₀) + b ≡ j + (r + j₀) + a
      → 2 * d ≤ dist (grid a b eq) a b
      → Middle s (2 * d)
  unfolding snake_end_points
  reverse-Middle s d i₀ j₀ r i j mid end rev run in_a in_b near near' over on far =
      let m = grid a b eq in
      let m' = mirror_grid a b eq in
      let mirrors = grid-Mirrors a b eq in
      let x = a - (r + i₀) in
      let y = b - (r + j₀) in
      let (whole, rest, through) =
        dist-le_met m' m a b (Mirrors-sym m m' a b mirrors) d d (r + i₀) (r + j₀) i j near near'
          in_a in_b (omega arith) (omega arith) in
      let both = dist-mirror m m' a b mirrors in
      let same = dist-Run m' i₀ j₀ r run in
      let p : a - (r + x) ≡ i₀ = omega arith in
      let q : b - (r + y) ≡ j₀ = omega arith in
      let start : (point (back a (r + i₀)) (back b (r + j₀))) ≡ point (at x) (at y) =
        ap (λ u. point u (back b (r + j₀))) (sub_ℕ_eq a (suc (r + i₀)) x 1 (omega arith))
        ∙ ap (point (at x)) (sub_ℕ_eq b (suc (r + j₀)) y 1 (omega arith)) in
      let stop : (point (back a i₀) (back b j₀)) ≡ point (at (r + x)) (at (r + y)) =
        ap (λ u. point u (back b j₀)) (sub_ℕ_eq a (suc i₀) (r + x) 1 (omega arith))
        ∙ ap (point (at (r + x))) (sub_ℕ_eq b (suc j₀) (r + y) 1 (omega arith)) in
      record {
        i = x;
        j = y;
        r = r;
        ends = rw rev (
            ap (λ u. (u, s.intermediate)) (end ∙ start)
            ∙ ap (λ u. (point (at x) (at y), u)) (mid ∙ stop));
        there = rw mid refl;
        in_a = omega arith;
        in_b = omega arith;
        run = Run-Mirrors m m' a b mirrors i₀ j₀ r run in_a in_b;
        before = d;
        after = d;
        at_before = omega arith;
        at_after = rw (p, q) (omega arith);
        sum = omega arith;
        shortest = omega arith;
        split = λ h. (omega arith, omega arith);
        edge = λ h. absurd (omega arith);
      }
