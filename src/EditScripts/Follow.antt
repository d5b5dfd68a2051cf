-- ===== src/EditScripts/Follow.antt =====
-- The diagonals that `end_of_fr_d_path_in_k` and `end_of_frr_d_path_in_k_plus_delta` follow, in terms
-- of the numbers of elements passed from the first, and from the last.
use cyglibabigail.Base.{
  ℕ, zero, suc, ◌+◌, ◌-◌, ◌≤◌, Bool, true, false, not, ◌&&◌, ltb, leb, ◌≡◌, refl, sym, ap, ◌∙◌,
  arith, Bool-cases, inl, inr, ℤ, pos, pos_part, sub_ℕ, ◌+ℤ◌, ◌-ℤ◌, ltb_ℤ, ltb_ℤ-sub_ℕ, sub_ℕ-+ℤ,
  sub_ℕ--ℤ, sub_ℕ_eq, pos_part-sub_ℕ, sub_ℕ_nonneg,
}
use cyglibabigail.EditScripts.Paths.{Walk, follow_forward, follow_backward}
use cyglibabigail.EditScripts.Distance.{dist, dist-match}
use cyglibabigail.EditScripts.Mirror.{Mirrors, Inside}

-- `r` matches in a row.
abbrev pub Run : (ℕ → ℕ → Bool) → ℕ → ℕ → ℕ → Type 0
Run m i j zero = Unit {0}
Run m i j (suc r) = (m i j ≡ true) × Run m (suc i) (suc j) r

pub dist-Run : (m : ℕ → ℕ → Bool) (i j r : ℕ) → Run m i j r → dist m (r + i) (r + j) ≡ dist m i j
dist-Run m i j zero h =
    let p : 0 + i ≡ i = omega arith in let q : 0 + j ≡ j = omega arith in rw (p, q) refl
dist-Run m i j (suc r) h =
    let p : suc r + i ≡ r + suc i = omega arith in
    let q : suc r + j ≡ r + suc j = omega arith in
    rw (p, q) (dist-Run m (suc i) (suc j) r h.1 ∙ dist-match m i j h.0)

-- The coordinate behind `i` elements, and the one before the last `i` of `a`.
abbrev pub at : ℕ → ℤ
at i = sub_ℕ i 1

abbrev pub back : ℕ → ℕ → ℤ
back a i = sub_ℕ a (suc i)

-- A walk has passed `r` matches from `i` and `j`, and stands before no other; `x` and `y` are the
-- coordinates.
pub record Followed (m : ℕ → ℕ → Bool) (x y : ℕ → ℤ) (i j : ℕ) (w : Walk) : Type 0 where
  pub r : ℕ
  pub run : Run m i j r
  pub stops : m (r + i) (r + j) ≡ false
  pub at_x : w.x ≡ x (r + i)
  pub at_y : w.y ≡ y (r + j)

module _ (a b : ℕ) (eq : ℕ → ℕ → Bool) where
  -- The matches from the first elements, and from the last.
  abbrev pub grid : ℕ → ℕ → Bool
  grid i j = ltb i a && ltb j b && eq i j

  abbrev pub mirror_grid : ℕ → ℕ → Bool
  mirror_grid i j = ltb i a && ltb j b && eq (a - suc i) (b - suc j)

  pub grid-Mirrors : Mirrors grid mirror_grid a b
  grid-Mirrors i j i' j' e f =
      let p : a - suc i' ≡ i = omega arith in
      let q : b - suc j' ≡ j = omega arith in rw (p, q) (ground arith)

  pub grid-Inside : Inside grid a b
  grid-Inside i j h = ground arith

  pub mirror_grid-Inside : Inside mirror_grid a b
  mirror_grid-Inside i j h = ground arith

  Followed-here :
      (m : ℕ → ℕ → Bool) (x y : ℕ → ℤ) (i j : ℕ) (w : Walk)
      → m i j ≡ false
      → w.x ≡ x i
      → w.y ≡ y j
      → Followed m x y i j w
  Followed-here m x y i j w h p q =
      let e : 0 + i ≡ i = omega arith in
      let f : 0 + j ≡ j = omega arith in
      record { r = 0; run = tt; stops = rw (e, f) h; at_x = rw e p; at_y = rw f q }

  Followed-next :
      (m : ℕ → ℕ → Bool) (x y : ℕ → ℤ) (i j : ℕ) (w : Walk)
      → m i j ≡ true
      → Followed m x y (suc i) (suc j) w
      → Followed m x y i j w
  Followed-next m x y i j w h p =
      let e : p.r + suc i ≡ suc p.r + i = omega arith in
      let f : p.r + suc j ≡ suc p.r + j = omega arith in
      record {
        r = suc p.r;
        run = (h, p.run);
        stops = rw (sym e, sym f) p.stops;
        at_x = p.at_x ∙ ap x e;
        at_y = p.at_y ∙ ap y f;
      }

  forward_test :
      (i j : ℕ)
      → (ltb_ℤ (at i) (sub_ℕ a 1)
          && ltb_ℤ (at j) (sub_ℕ b 1)
          && eq (pos_part (at i +ℤ pos 1)) (pos_part (at j +ℤ pos 1)))
        ≡ grid i j
  forward_test i j =
      let e : (i + 1) - 1 ≡ i = omega arith in
      let f : (j + 1) - 1 ≡ j = omega arith in
      let g : ltb (i + 1) (a + 1) ≡ ltb i a = ground arith in
      let h : ltb (j + 1) (b + 1) ≡ ltb j b = ground arith in
      rw
        (
          sub_ℕ-+ℤ i 1 1,
          sub_ℕ-+ℤ j 1 1,
          pos_part-sub_ℕ (i + 1) 1,
          pos_part-sub_ℕ (j + 1) 1,
          ltb_ℤ-sub_ℕ i 1 a 1,
          ltb_ℤ-sub_ℕ j 1 b 1,
          e,
          f,
          g,
          h,
        )
        refl

  -- `follow_forward` from the points behind `i` and `j` elements, with enough rounds.
  pub follow_forward-Followed :
      (n i j : ℕ) (w : Walk)
      → a ≤ n + i
      → w.x ≡ at i
      → w.y ≡ at j
      → Followed grid at at i j (follow_forward a b eq n w)
  unfolding follow_forward
  follow_forward-Followed zero i j w h p q = Followed-here grid at at i j w (ground arith) p q
  follow_forward-Followed (suc n) i j w h p q =
      let t : (ltb_ℤ w.x (sub_ℕ a 1)
            && ltb_ℤ w.y (sub_ℕ b 1)
            && eq (pos_part (w.x +ℤ pos 1)) (pos_part (w.y +ℤ pos 1)))
          ≡ grid i j =
        rw (p, q) (forward_test i j) in
      elim (Bool-cases (grid i j)) [
        | inl match ↦
            rw (t ∙ match, follow_forward)
              (Followed-next grid at at i j _ match (
                follow_forward-Followed n (suc i) (suc j) _ (omega arith)
                  (ap (λ x. x +ℤ pos 1) p
                    ∙ sub_ℕ-+ℤ i 1 1
                    ∙ sub_ℕ_eq (i + 1) 1 (suc i) 1 (omega arith))
                  (ap (λ x. x +ℤ pos 1) q
                    ∙ sub_ℕ-+ℤ j 1 1
                    ∙ sub_ℕ_eq (j + 1) 1 (suc j) 1 (omega arith))))
        | inr mismatch ↦
            rw (t ∙ mismatch, follow_forward) (Followed-here grid at at i j w mismatch p q)
      ]

  backward_test :
      (i j : ℕ)
      → (not (ltb_ℤ (back a i) (pos 0))
          && not (ltb_ℤ (back b j) (pos 0))
          && eq (pos_part (back a i)) (pos_part (back b j)))
        ≡ mirror_grid i j
  backward_test i j =
      let g : leb (suc i) a ≡ ltb i a = ground arith in
      let h : leb (suc j) b ≡ ltb j b = ground arith in
      rw
        (
          sub_ℕ_nonneg a (suc i),
          sub_ℕ_nonneg b (suc j),
          pos_part-sub_ℕ a (suc i),
          pos_part-sub_ℕ b (suc j),
          g,
          h,
        )
        refl

  -- `follow_backward` from the points before the last `i` and `j` elements.
  pub follow_backward-Followed :
      (n i j : ℕ) (w : Walk)
      → a ≤ n + i
      → w.x ≡ back a i
      → w.y ≡ back b j
      → Followed mirror_grid (back a) (back b) i j (follow_backward a b eq n w)
  unfolding follow_backward
  follow_backward-Followed zero i j w h p q =
      Followed-here mirror_grid (back a) (back b) i j w (ground arith) p q
  follow_backward-Followed (suc n) i j w h p q =
      let t : (not (ltb_ℤ w.x (pos 0))
            && not (ltb_ℤ w.y (pos 0))
            && eq (pos_part w.x) (pos_part w.y))
          ≡ mirror_grid i j =
        rw (p, q) (backward_test i j) in
      elim (Bool-cases (mirror_grid i j)) [
        | inl match ↦
            rw (t ∙ match, follow_backward)
              (Followed-next mirror_grid (back a) (back b) i j _ match (
                follow_backward-Followed n (suc i) (suc j) _ (omega arith)
                  (ap (λ x. x -ℤ pos 1) p
                    ∙ sub_ℕ--ℤ a (suc i) 1
                    ∙ sub_ℕ_eq a (suc i + 1) a (suc (suc i)) (omega arith))
                  (ap (λ x. x -ℤ pos 1) q
                    ∙ sub_ℕ--ℤ b (suc j) 1
                    ∙ sub_ℕ_eq b (suc j + 1) b (suc (suc j)) (omega arith))))
        | inr mismatch ↦
            rw (t ∙ mismatch, follow_backward)
              (Followed-here mirror_grid (back a) (back b) i j w mismatch p q)
      ]
