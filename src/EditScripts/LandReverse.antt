-- ===== src/EditScripts/LandReverse.antt =====
-- `end_of_frr_d_path_in_k_plus_delta` of `include/abg-diff-utils.h` from the point that it starts at.
use cyglibabigail.Base.{
  ℕ, suc, ◌+◌, ◌≤◌, Bool, false, not, ◌&&◌, ◌||◌, ltb, ◌==◌, ◌≡◌, refl, ap, ◌∙◌, arith, Bool-cases,
  inl, inr, ℤ, pos, negsuc, pos_part, sub_ℕ, ◌+ℤ◌, ltb_ℤ, eqb_ℤ, sub_ℕ-+ℤ, pos_part-sub_ℕ,
}
use cyglibabigail.EditScripts.Points.{Point, empty_point}
use cyglibabigail.EditScripts.Paths.{
  DPaths, Walk, frr_snake, snake_of, store, follow_backward, goes_left, frr_begin,
  end_of_frr_d_path_in_k_plus_delta,
}
use cyglibabigail.EditScripts.Follow.{back, mirror_grid, Followed, follow_backward-Followed}
use cyglibabigail.EditScripts.Furthest.{Start, Start-Furthest}
use cyglibabigail.EditScripts.Tables.{On, Found, Landed}
use cyglibabigail.EditScripts.LandForward.{past_cases}

at_first_test : (a i : ℕ) → eqb_ℤ (back a i) (negsuc 0) ≡ (a == i)
unfolding sub_ℕ
at_first_test a i = ground arith

outside_test : (a i : ℕ) → ltb_ℤ (back a i) (negsuc 0) ≡ ltb a i
unfolding sub_ℕ
outside_test a i = ground arith

inside_test :
    (a b i j : ℕ)
    → ((eqb_ℤ (back a i) (negsuc 0) && eqb_ℤ (back b j) (negsuc 0))
        || not (ltb_ℤ (back a i) (negsuc 0) || ltb_ℤ (back b j) (negsuc 0)))
      ≡ not (ltb a i || ltb b j)
inside_test a b i j =
    rw (at_first_test a i, at_first_test b j, outside_test a i, outside_test b j) (ground arith)

module _ (a b : ℕ) (eq : ℕ → ℕ → Bool) where
  frr_snake-Found :
      (begin : Point) (x y : ℤ) (i₀ j₀ i j : ℕ) (w : Walk)
      → x ≡ back a i₀
      → y ≡ back b j₀
      → w.x ≡ back a i
      → w.y ≡ back b j
      → Found (back a) (back b) a b false begin i₀ j₀ i j (frr_snake begin x y w)
  unfolding frr_snake
  frr_snake-Found begin x y i₀ j₀ i j w p₀ q₀ p q =
      let inside : ((eqb_ℤ w.x (negsuc 0) && eqb_ℤ w.y (negsuc 0))
            || not (ltb_ℤ w.x (negsuc 0) || ltb_ℤ w.y (negsuc 0)))
          ≡ not (ltb a i || ltb b j) =
        rw (p, q) (inside_test a b i j) in
      elim (Bool-cases (ltb a i || ltb b j)) [
        | inl past ↦ inr (past_cases a b i j past, rw (inside ∙ ap not past, frr_snake) refl)
        | inr within ↦ inl (
          ground arith,
          ground arith,
          (
            snake_of begin x y w false,
            rw (inside ∙ ap not within, frr_snake) refl,
            refl,
            rw (p₀, q₀) refl,
            rw (p, q) refl,
            refl,
          ),
        )
      ]

  -- From the point that the search starts at, where it is one to start at.
  pub Start-Landed :
      (k d : ℤ) (v : DPaths) (e p q i j : ℕ)
      → let index = k +ℤ sub_ℕ a b in
        On p q i j
        → (frr_begin index v (goes_left index d (sub_ℕ a b) v)).1 ≡ back a i
        → (frr_begin index v (goes_left index d (sub_ℕ a b) v)).2 ≡ back b j
        → Start (mirror_grid a b eq) e i j
        → Landed
            (mirror_grid a b eq)
            (back a)
            (back b)
            a
            b
            false
            (λ i j begin. Unit {0})
            v
            index
            e
            p
            q
            (end_of_frr_d_path_in_k_plus_delta a b eq k d v)
  unfolding end_of_frr_d_path_in_k_plus_delta
  Start-Landed k d v e p q i j on x y s =
      let index = k +ℤ sub_ℕ a b in
      let start = frr_begin index v (goes_left index d (sub_ℕ a b) v) in
      let n = pos_part (start.1 +ℤ pos 1) in
      let enough : a ≤ n + i =
        rw (x, sub_ℕ-+ℤ a (suc i) 1, pos_part-sub_ℕ (a + 1) (suc i)) (omega arith) in
      let w : Walk =
        follow_backward a b eq n (record { x = start.1; y = start.2; diag_start = empty_point }) in
      let f : Followed (mirror_grid a b eq) (back a) (back b) i j w =
        follow_backward-Followed a b eq n i j _ enough x y in
      record {
        i₀ = i;
        j₀ = j;
        i = f.r + i;
        j = f.r + j;
        begin = start.0;
        came = tt;
        r = f.r;
        run = f.run;
        at_i = refl;
        at_j = refl;
        on = omega arith;
        far = Start-Furthest (mirror_grid a b eq) e i j f.r s f.run f.stops;
        stored = ap (store v index) f.at_x;
        found = frr_snake-Found start.0 start.1 start.2 i j (f.r + i) (f.r + j) w x y f.at_x f.at_y;
      }
