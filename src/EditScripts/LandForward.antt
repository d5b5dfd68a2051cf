-- ===== src/EditScripts/LandForward.antt =====
-- `end_of_fr_d_path_in_k` of `include/abg-diff-utils.h` from the point that it starts at.
use cyglibabigail.Base.{
  ℕ, ◌+◌, ◌≤◌, ◌<◌, ◌⊎◌, Bool, true, false, ◌||◌, ltb, ◌≡◌, refl, ap, ◌∙◌, arith, Bool-cases, inl,
  inr, ℤ, pos, negsuc, pos_part, sub_ℕ, ◌-ℤ◌, ltb_ℤ, leb_ℤ, sub_ℕ_eq, sub_ℕ-sub_ℕ, pos_part-sub_ℕ,
}
use cyglibabigail.EditScripts.Points.{Point, empty_point}
use cyglibabigail.EditScripts.Paths.{
  DPaths, Walk, fr_snake, snake_of, store, follow_forward, goes_down, fr_begin,
  end_of_fr_d_path_in_k,
}
use cyglibabigail.EditScripts.Follow.{at, grid, Followed, follow_forward-Followed}
use cyglibabigail.EditScripts.Furthest.{Start, Start-Furthest}
use cyglibabigail.EditScripts.Tables.{On, Found, Landed}

past_test : (a i : ℕ) → leb_ℤ (pos a) (at i) ≡ ltb a i
unfolding sub_ℕ
past_test a i = ground arith

before_test : (i : ℕ) → ltb_ℤ (at i) (negsuc 0) ≡ false
unfolding sub_ℕ
before_test i = ground arith

pub past_cases : (a b i j : ℕ) → (ltb a i || ltb b j) ≡ true → (a < i) ⊎ (b < j)
past_cases a b i j h = elim (Bool-cases (ltb a i)) [
  | inl p ↦ inl (ground arith)
  | inr p ↦ inr (ground arith)
]

module _ (a b : ℕ) (eq : ℕ → ℕ → Bool) where
  fr_snake-Found :
      (begin : Point) (x y : ℤ) (i₀ j₀ i j : ℕ) (w : Walk)
      → x ≡ at i₀
      → y ≡ at j₀
      → w.x ≡ at i
      → w.y ≡ at j
      → Found at at a b true begin i₀ j₀ i j (fr_snake a b eq begin x y w)
  unfolding fr_snake
  fr_snake-Found begin x y i₀ j₀ i j w p₀ q₀ p q =
      let outside : (leb_ℤ (pos a) w.x
            || leb_ℤ (pos b) w.y
            || ltb_ℤ w.x (negsuc 0)
            || ltb_ℤ w.y (negsuc 0))
          ≡ (ltb a i || ltb b j) =
        rw (p, q, past_test a i, past_test b j, before_test i, before_test j) (ground arith) in
      elim (Bool-cases (ltb a i || ltb b j)) [
        | inl past ↦ inr (past_cases a b i j past, rw (outside ∙ past, fr_snake) refl)
        | inr within ↦ inl (
          ground arith,
          ground arith,
          (
            snake_of begin x y w true,
            rw (outside ∙ within, fr_snake) refl,
            refl,
            rw (p₀, q₀) refl,
            rw (p, q) refl,
            refl,
          ),
        )
      ]

  -- From the point that the search starts at, where it is one to start at.
  pub Start-Landed :
      (C : ℕ → ℕ → Point → Type 0) (k d : ℤ) (v : DPaths) (e p q i j : ℕ)
      → k ≡ sub_ℕ q p
      → On p q i j
      → (fr_begin k v (goes_down k d v)).1 ≡ at i
      → C i j (fr_begin k v (goes_down k d v)).0
      → Start (grid a b eq) e i j
      → Landed (grid a b eq) at at a b true C v k e p q (end_of_fr_d_path_in_k a b eq k d v)
  unfolding end_of_fr_d_path_in_k
  Start-Landed C k d v e p q i j at_k on x came s =
      let x₀ = (fr_begin k v (goes_down k d v)).1 in
      let y : x₀ -ℤ k ≡ at j =
        ap (λ z. z -ℤ k) x
        ∙ ap (λ z. at i -ℤ z) at_k
        ∙ sub_ℕ-sub_ℕ i 1 q p
        ∙ sub_ℕ_eq (i + p) (1 + q) j 1 (omega arith) in
      let n = pos_part (sub_ℕ a 1 -ℤ x₀) in
      let enough : a ≤ n + i =
        rw (x, sub_ℕ-sub_ℕ a 1 i 1, pos_part-sub_ℕ (a + 1) (1 + i)) (omega arith) in
      let w : Walk =
        follow_forward a b eq n (record { x = x₀; y = x₀ -ℤ k; diag_start = empty_point }) in
      let f : Followed (grid a b eq) at at i j w =
        follow_forward-Followed a b eq n i j _ enough x y in
      record {
        i₀ = i;
        j₀ = j;
        i = f.r + i;
        j = f.r + j;
        begin = (fr_begin k v (goes_down k d v)).0;
        came = came;
        r = f.r;
        run = f.run;
        at_i = refl;
        at_j = refl;
        on = omega arith;
        far = Start-Furthest (grid a b eq) e i j f.r s f.run f.stops;
        stored = ap (store v k) f.at_x;
        found =
            fr_snake-Found (fr_begin k v (goes_down k d v)).0 x₀ (x₀ -ℤ k) i j (f.r + i) (f.r + j) w
              x y f.at_x f.at_y;
      }
