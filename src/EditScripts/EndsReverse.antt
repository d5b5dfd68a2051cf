-- ===== src/EditScripts/EndsReverse.antt =====
-- `end_of_frr_d_path_in_k_plus_delta` of `include/abg-diff-utils.h` finds the furthest reaching path of
-- its diagonal, counted from the last elements.
use cyglibabigail.Base.{
  ℕ, zero, suc, ◌+◌, ◌*◌, ◌≤◌, ◌<◌, Bool, true, false, not, ◌&&◌, ◌||◌, ltb, leb, leb→le, ◌==◌, ◌≡◌,
  refl, ap, ◌∙◌, arith, Bool-cases, inl, inr, int_laws, ℤ, pos, sub_ℕ, ◌+ℤ◌, ◌-ℤ◌, leb_ℤ, eqb_ℤ,
  sub_ℕ_eq, sub_ℕ-sub_ℕ, leb_ℤ-sub_ℕ, eqb_ℤ-sub_ℕ, sub_ℕ--ℤ, sub_ℕ-+ℤ-sub_ℕ,
}
use cyglibabigail.EditScripts.Paths.{DPaths, goes_left, end_of_frr_d_path_in_k_plus_delta}
use cyglibabigail.EditScripts.Follow.{back, mirror_grid}
use cyglibabigail.EditScripts.Furthest.{
  Start-zero, Start-first, Start-last, Start-down, Start-right,
}
use cyglibabigail.EditScripts.Tables.{On, Entry, Landed}
use cyglibabigail.EditScripts.Ends.{diagonal}
use cyglibabigail.EditScripts.LandReverse.{Start-Landed}

module _ (a b : ℕ) where
  -- The index of the round `t` of step `d`.
  abbrev pub rev_diagonal : ℕ → ℕ → ℤ
  rev_diagonal t d = diagonal t d +ℤ sub_ℕ a b

  pub rev_diagonal_eq : (t d : ℕ) → rev_diagonal t d ≡ sub_ℕ (2 * t + a) (d + b)
  rev_diagonal_eq t d = sub_ℕ-+ℤ-sub_ℕ (2 * t) d a b

  first_test : (t d : ℕ) → eqb_ℤ (rev_diagonal t d) (pos 0 -ℤ pos d +ℤ sub_ℕ a b) ≡ (t == 0)
  unfolding ◌-ℤ◌
  first_test t d =
      rw (rev_diagonal_eq t d, sub_ℕ-+ℤ-sub_ℕ (0 + 0) (0 + d) a b)
        (eqb_ℤ-sub_ℕ (2 * t + a) (d + b) (0 + 0 + a) (0 + d + b) ∙ ground arith)

  last_test : (t d : ℕ) → eqb_ℤ (rev_diagonal t d) (pos d +ℤ sub_ℕ a b) ≡ (t == d)
  last_test t d =
      let p : pos d +ℤ sub_ℕ a b ≡ sub_ℕ (d + a) b = omega int_laws in
      rw (rev_diagonal_eq t d, p) (eqb_ℤ-sub_ℕ (2 * t + a) (d + b) (d + a) b ∙ ground arith)

  pub goes_left_lem :
      (t d : ℕ) (v : DPaths)
      → goes_left (rev_diagonal t d) (pos d) (sub_ℕ a b) v ≡ (
          (t == 0)
          || (not (t == d)
              && leb_ℤ (v (rev_diagonal t d +ℤ pos 1)) (v (rev_diagonal t d -ℤ pos 1))))
  unfolding goes_left
  goes_left_lem t d v = rw (first_test t d, last_test t d) refl

  pub goes_left-suc :
      (s d : ℕ) (v : DPaths)
      → goes_left (rev_diagonal (suc s) d) (pos d) (sub_ℕ a b) v ≡ (
          not (suc s == d)
          && leb_ℤ (v (rev_diagonal (suc s) d +ℤ pos 1)) (v (rev_diagonal (suc s) d -ℤ pos 1)))
  goes_left-suc s d v =
      let e : (suc s == 0) ≡ false = ground arith in goes_left_lem (suc s) d v ∙ rw e refl

  rev_diagonal_start : rev_diagonal 0 0 +ℤ pos 1 ≡ sub_ℕ a b +ℤ pos 1
  rev_diagonal_start = omega (int_laws)

  pub rev_diagonal_above : (t e : ℕ) → rev_diagonal t (suc e) +ℤ pos 1 ≡ rev_diagonal t e
  rev_diagonal_above t e = omega int_laws

  pub rev_diagonal_below : (t e : ℕ) → rev_diagonal (suc t) (suc e) -ℤ pos 1 ≡ rev_diagonal t e
  rev_diagonal_below t e = omega int_laws

  -- The coordinate beside a point of the diagonal.
  y_of : (t d i j : ℕ) (z : ℤ) → On (2 * t) d i j → z ≡ back a i → z -ℤ rev_diagonal t d ≡ back b j
  y_of t d i j z on h =
      rw (h, rev_diagonal_eq t d)
        (sub_ℕ-sub_ℕ a (suc i) (2 * t + a) (d + b)
          ∙ sub_ℕ_eq (a + (d + b)) (suc i + (2 * t + a)) b (suc j) (omega arith))

  y_before :
      (t d i j : ℕ) (z : ℤ)
      → On (2 * t) d i j
      → z ≡ back a i
      → z -ℤ rev_diagonal t d -ℤ pos 1 ≡ back b (suc j)
  y_before t d i j z on h =
      ap (λ y. y -ℤ pos 1) (y_of t d i j z on h)
      ∙ sub_ℕ--ℤ b (suc j) 1
      ∙ sub_ℕ_eq b (suc j + 1) b (suc (suc j)) (omega arith)

module _ (a b : ℕ) (eq : ℕ → ℕ → Bool) where
  abbrev pub FrrEntry : DPaths → ℕ → ℕ → Type 0
  FrrEntry v d t = Entry (mirror_grid a b eq) (back a) v (rev_diagonal a b t d) d (2 * t) d

  abbrev pub FrrLanded : DPaths → ℕ → ℕ → Type 0
  FrrLanded v d t =
      Landed (mirror_grid a b eq) (back a) (back b) a b false (λ i j begin. Unit {0}) v
        (rev_diagonal a b t d) d (2 * t) d
        (end_of_frr_d_path_in_k_plus_delta a b eq (diagonal t d) (pos d) v)

  -- The vector is set so that the first search is from the last elements.
  pub FrrLanded-zero : (v : DPaths) → v (sub_ℕ a b +ℤ pos 1) ≡ pos a → FrrLanded v 0 0
  FrrLanded-zero v h =
      Start-Landed a b eq (diagonal 0 0) (pos 0) v 0 0 0 0 0 refl
        (rw (goes_left_lem a b 0 0 v, rev_diagonal_start a b, h) (omega int_laws))
        (rw (goes_left_lem a b 0 0 v, rev_diagonal_start a b, h) (omega int_laws))
        (Start-zero (mirror_grid a b eq))

  FrrLanded-first : (v : DPaths) (e : ℕ) → FrrEntry v e 0 → FrrLanded v (suc e) 0
  FrrLanded-first v e t =
      Start-Landed a b eq (diagonal 0 (suc e)) (pos (suc e)) v (suc e) (2 * 0) (suc e) (suc t.i) t.j
        (omega (arith, t.on))
        (rw (goes_left_lem a b 0 (suc e) v, rev_diagonal_above a b 0 e, t.held) (omega int_laws))
        (rw (goes_left_lem a b 0 (suc e) v, rev_diagonal_above a b 0 e)
          (y_of a b 0 e t.i t.j _ t.on t.held))
        (Start-last (mirror_grid a b eq) e t.i t.j t.far (omega (arith, t.on)))

  FrrLanded-last : (v : DPaths) (e : ℕ) → FrrEntry v e e → FrrLanded v (suc e) (suc e)
  FrrLanded-last v e t =
      let r : (suc e == suc e) ≡ true = ground arith in
      Start-Landed a b eq (diagonal (suc e) (suc e)) (pos (suc e)) v (suc e) (2 * suc e) (suc e) t.i
        (suc t.j) (omega (arith, t.on))
        (rw (goes_left-suc a b e (suc e) v, r, rev_diagonal_below a b e e) t.held)
        (rw (goes_left-suc a b e (suc e) v, r, rev_diagonal_below a b e e)
          (y_before a b e e t.i t.j _ t.on t.held))
        (Start-first (mirror_grid a b eq) e t.i t.j t.far (omega (arith, t.on)))

  FrrLanded-middle :
      (v : DPaths) (e s : ℕ)
      → s < e
      → FrrEntry v e (suc s)
      → FrrEntry v e s
      → FrrLanded v (suc e) (suc s)
  FrrLanded-middle v e s h above below =
      let r : (suc s == suc e) ≡ false = ground arith in
      let c : leb_ℤ (back a above.i) (back a below.i) ≡ leb below.i above.i =
        leb_ℤ-sub_ℕ a (suc above.i) a (suc below.i) ∙ ground arith in
      let test : goes_left (rev_diagonal a b (suc s) (suc e)) (pos (suc e)) (sub_ℕ a b) v
          ≡ leb below.i above.i =
        goes_left-suc a b s (suc e) v
        ∙ rw
            (
              r,
              rev_diagonal_above a b (suc s) e,
              rev_diagonal_below a b s e,
              above.held,
              below.held,
            )
            c in
      elim (Bool-cases (leb below.i above.i)) [
        | inl left ↦
            Start-Landed a b eq (diagonal (suc s) (suc e)) (pos (suc e)) v (suc e) (2 * suc s)
              (suc e) (suc above.i) above.j (omega (arith, above.on))
              (rw (test ∙ left, rev_diagonal_above a b (suc s) e, above.held) (omega int_laws))
              (rw (test ∙ left, rev_diagonal_above a b (suc s) e)
                (y_of a b (suc s) e above.i above.j _ above.on above.held))
              (Start-right (mirror_grid a b eq) e below.i below.j above.i above.j below.far
                above.far (omega (arith, above.on, below.on)) (leb→le _ _ left))
        | inr up ↦
            Start-Landed a b eq (diagonal (suc s) (suc e)) (pos (suc e)) v (suc e) (2 * suc s)
              (suc e) below.i (suc below.j) (omega (arith, below.on))
              (rw (test ∙ up, rev_diagonal_below a b s e) below.held)
              (rw (test ∙ up, rev_diagonal_below a b s e)
                (y_before a b s e below.i below.j _ below.on below.held))
              (Start-down (mirror_grid a b eq) e below.i below.j above.i above.j below.far above.far
                (omega (arith, above.on, below.on)) (ground arith))
      ]

  -- `end_of_frr_d_path_in_k_plus_delta`, when the vector holds the furthest points of the step before.
  pub end_of_frr_d_path_in_k_plus_delta-Landed :
      (v : DPaths) (e t : ℕ)
      → t ≤ suc e
      → ((s : ℕ) → s ≤ e → FrrEntry v e s)
      → FrrLanded v (suc e) t
  end_of_frr_d_path_in_k_plus_delta-Landed v e zero h entries =
      FrrLanded-first v e (entries 0 (omega arith))
  end_of_frr_d_path_in_k_plus_delta-Landed v e (suc s) h entries = elim (Bool-cases (ltb s e)) [
    | inl less ↦
        FrrLanded-middle v e s (ground arith) (entries (suc s) (ground arith))
          (entries s (omega arith))
    | inr more ↦ let p : s ≡ e = ground arith in rw p (FrrLanded-last v e (entries e (omega arith)))
  ]
