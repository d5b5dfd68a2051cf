-- ===== src/EditScripts/Overlap.antt =====
-- The tests for overlapping paths, in `compute_middle_snake` of `include/abg-diff-utils.h`, on numbers:
-- the diagonals that they pass, and the comparison that they make there.
use cyglibabigail.Base.{
  ℕ, zero, suc, ◌+◌, ◌-◌, ◌*◌, ◌≤◌, ◌⊎◌, Bool, true, false, not, ◌&&◌, leb, leb→le, ==_iff, ◌≡◌,
  refl, sym, ap, ◌∙◌, arith, inl, inr, ℤ, pos, pos_part, neg_part, sub_ℕ, sub_ℕ_eq, sub_ℕ-sub_ℕ,
  ◌+ℤ◌, ◌-ℤ◌, eqb_ℤ, leb_ℤ, ltb_ℤ, leb_ℤ-sub_ℕ, ltb_ℤ-sub_ℕ, int_laws,
}
use cyglibabigail.EditScripts.Points.{point, Snake, ends_of_furthest_d_paths_overlap}
use cyglibabigail.EditScripts.Paths.{DPaths}
use cyglibabigail.EditScripts.Follow.{at, back}
use cyglibabigail.EditScripts.Tables.{On}
use cyglibabigail.EditScripts.Ends.{diagonal}
use cyglibabigail.EditScripts.EndsReverse.{rev_diagonal, rev_diagonal_eq}
use cyglibabigail.EditScripts.Snakes.{is_odd, point_on, forward_overlap, reverse_overlap}

distance_part : (a b : ℕ) → pos_part (sub_ℕ a b) + neg_part (sub_ℕ a b) ≡ (a - b) + (b - a)
unfolding sub_ℕ
distance_part a b = ground arith

is_odd-true : (a b h : ℕ) → a + b ≡ h + h + 1 → is_odd (sub_ℕ a b) ≡ true
is_odd-true a b h e = rw (distance_part a b) ((==_iff _ 1).1 (omega arith))

is_odd-false : (a b h : ℕ) → a + b ≡ h + h → is_odd (sub_ℕ a b) ≡ false
is_odd-false a b h e = rw (distance_part a b) (ground arith)

-- A number is even, or it is not.
halves : (n : ℕ) → ((h : ℕ) × (n ≡ h + h)) ⊎ ((h : ℕ) × (n ≡ h + h + 1))
halves zero = inl (0, refl)
halves (suc n) = elim (halves n) [
  | inl (h, e) ↦ inr (h, omega arith)
  | inr (h, e) ↦ inl (suc h, omega arith)
]

four_true :
    (p q r w : Bool)
    → (p && (q && r) && w) ≡ true
    → (p ≡ true) × (q ≡ true) × (r ≡ true) × (w ≡ true)
four_true p q r w h = (ground arith, ground arith, ground arith, ground arith)

overlap_test :
    (a i i' : ℕ) (x y x' y' k : ℤ)
    → x ≡ at i
    → x' ≡ back a i'
    → x -ℤ y ≡ k
    → x' -ℤ y' ≡ k
    → ends_of_furthest_d_paths_overlap (point x y) (point x' y') ≡ leb a (i + i')
unfolding ends_of_furthest_d_paths_overlap
overlap_test a i i' x y x' y' k e f g g' =
    let same : eqb_ℤ (x -ℤ y) (x' -ℤ y') ≡ true = rw (g, g') (ground arith) in
    let less : not (ltb_ℤ (at i) (back a i')) ≡ leb a (i + i') =
      ap not (ltb_ℤ-sub_ℕ i 1 a (suc i')) ∙ ground arith in
    rw (same, e, f) less

along : (z k : ℤ) → z -ℤ (z -ℤ k) ≡ k
along z k = omega int_laws

module _ (a b : ℕ) (eq : ℕ → ℕ → Bool) where
  -- The diagonals of the round `t` of step `d`, forwards, and of the round `t'` of step `e`, in
  -- reverse, are the same.
  abbrev pub Same : ℕ → ℕ → ℕ → ℕ → Type 0
  Same t d t' e = 2 * t + e + b ≡ 2 * t' + a + d

  pub Same-diagonal : (t d t' e : ℕ) → Same t d t' e → diagonal t d ≡ rev_diagonal a b t' e
  Same-diagonal t d t' e h =
      sub_ℕ_eq (2 * t) d (2 * t' + a) (e + b) (omega arith) ∙ sym (rev_diagonal_eq a b t' e)

  low_test :
      (t e : ℕ)
      → leb_ℤ (sub_ℕ a b -ℤ (pos (suc e) -ℤ pos 1)) (diagonal t (suc e))
        ≡ leb (a + suc e) (2 * t + (b + e))
  low_test t e =
      let p : sub_ℕ a b -ℤ (pos (suc e) -ℤ pos 1) ≡ sub_ℕ a (b + e) = omega int_laws in
      rw p (leb_ℤ-sub_ℕ a (b + e) (2 * t) (suc e))

  high_test :
      (t e : ℕ)
      → leb_ℤ (diagonal t (suc e)) (sub_ℕ a b +ℤ (pos (suc e) -ℤ pos 1))
        ≡ leb (2 * t + b) (a + e + suc e)
  high_test t e =
      let p : sub_ℕ a b +ℤ (pos (suc e) -ℤ pos 1) ≡ sub_ℕ (a + e) b = omega int_laws in
      rw p (leb_ℤ-sub_ℕ (2 * t) (suc e) (a + e) b)

  -- On such a diagonal the test compares the two ends.
  pub forward_overlap-Same :
      (t e t' i j i' : ℕ) (rv : DPaths) (s : Snake)
      → t' ≤ e
      → s.end ≡ point (at i) (at j)
      → On (suc e) (2 * t) i j
      → rv (rev_diagonal a b t' e) ≡ back a i'
      → Same t (suc e) t' e
      → forward_overlap a b eq (suc e) (diagonal t (suc e)) rv s ≡ leb a (i + i')
  unfolding forward_overlap
  forward_overlap-Same t e t' i j i' rv s in_e ends on held same =
      let k = Same-diagonal t (suc e) t' e same in
      let odd : is_odd (sub_ℕ a b) ≡ true = is_odd-true a b (t + b - t' - 1) (omega arith) in
      let low : leb (a + suc e) (2 * t + (b + e)) ≡ true = ground arith in
      let high : leb (2 * t + b) (a + e + suc e) ≡ true = ground arith in
      let d : at i -ℤ at j ≡ diagonal t (suc e) =
        sub_ℕ-sub_ℕ i 1 j 1 ∙ sub_ℕ_eq (i + 1) (1 + j) (2 * t) (suc e) (omega arith) in
      rw (ends, odd, low_test t e, high_test t e, low, high)
        (overlap_test a i i' (at i) (at j) (rv (diagonal t (suc e))) _ (diagonal t (suc e)) refl
          (ap rv k ∙ held) d (along (rv (diagonal t (suc e))) (diagonal t (suc e))))

  -- On no other diagonal does it hold.
  pub forward_overlap-true :
      (t d : ℕ) (rv : DPaths) (s : Snake)
      → forward_overlap a b eq d (diagonal t d) rv s ≡ true
      → (e : ℕ) × (t' : ℕ) × (d ≡ suc e) × (t' ≤ e) × Same t d t' e
  unfolding forward_overlap
  forward_overlap-true t zero rv s h =
      let (odd, low, high, over) =
        four_true (is_odd (sub_ℕ a b)) (leb_ℤ (sub_ℕ a b -ℤ (pos 0 -ℤ pos 1)) (diagonal t 0))
          (leb_ℤ (diagonal t 0) (sub_ℕ a b +ℤ (pos 0 -ℤ pos 1)))
          (ends_of_furthest_d_paths_overlap s.end (point_on (rv (diagonal t 0)) (diagonal t 0)))
          h in
      let p : sub_ℕ a b -ℤ (pos 0 -ℤ pos 1) ≡ sub_ℕ (a + 1) b = omega int_laws in
      let q : sub_ℕ a b +ℤ (pos 0 -ℤ pos 1) ≡ sub_ℕ a (b + 1) = omega int_laws in
      let low' : leb (a + 1 + 0) (2 * t + b) ≡ true =
        sym (leb_ℤ-sub_ℕ (a + 1) b (2 * t) 0) ∙ ap (λ z. leb_ℤ z (diagonal t 0)) (sym p) ∙ low in
      let high' : leb (2 * t + (b + 1)) (a + 0) ≡ true =
        sym (leb_ℤ-sub_ℕ (2 * t) 0 a (b + 1)) ∙ ap (leb_ℤ (diagonal t 0)) (sym q) ∙ high in
      absurd (ground arith)
  forward_overlap-true t (suc e) rv s h =
      let (odd, low, high, over) =
        four_true (is_odd (sub_ℕ a b)) _ _
          (ends_of_furthest_d_paths_overlap s.end
            (point_on (rv (diagonal t (suc e))) (diagonal t (suc e))))
          h in
      let low' = leb→le _ _ (sym (low_test t e) ∙ low) in
      let high' = leb→le _ _ (sym (high_test t e) ∙ high) in
      elim (halves (a + b)) [
        | inl (n, even) ↦ let odd' = is_odd-false a b n even in absurd (ground (arith, odd, odd'))
        | inr (n, even) ↦ (e, t + b - n - 1, refl, omega arith, omega arith)
      ]

  rev_low_test :
      (t d : ℕ) → leb_ℤ (pos 0 -ℤ pos d) (rev_diagonal a b t d) ≡ leb (0 + (d + b)) (2 * t + a + d)
  rev_low_test t d =
      let p : pos 0 -ℤ pos d ≡ sub_ℕ 0 d = omega int_laws in
      rw (p, rev_diagonal_eq a b t d) (leb_ℤ-sub_ℕ 0 d (2 * t + a) (d + b))

  rev_high_test :
      (t d : ℕ) → leb_ℤ (rev_diagonal a b t d) (pos d) ≡ leb (2 * t + a + 0) (d + (d + b))
  rev_high_test t d =
      let p : pos d ≡ sub_ℕ d 0 = omega int_laws in
      rw (rev_diagonal_eq a b t d)
        (ap (leb_ℤ (sub_ℕ (2 * t + a) (d + b))) p ∙ leb_ℤ-sub_ℕ (2 * t + a) (d + b) d 0)

  -- The same of the test in reverse, at the round `t'` of step `d`.
  pub reverse_overlap-Same :
      (t t' d i i' j' : ℕ) (fv : DPaths) (s : Snake)
      → t ≤ d
      → s.end ≡ point (back a i') (back b j')
      → On (2 * t') d i' j'
      → fv (diagonal t d) ≡ at i
      → Same t d t' d
      → reverse_overlap a b eq d (diagonal t' d) fv s ≡ leb a (i + i')
  unfolding reverse_overlap
  reverse_overlap-Same t t' d i i' j' fv s in_d ends on held same =
      let k = Same-diagonal t d t' d same in
      let even : is_odd (sub_ℕ a b) ≡ false = is_odd-false a b (t + b - t') (omega arith) in
      let low : leb (0 + (d + b)) (2 * t' + a + d) ≡ true = ground arith in
      let high : leb (2 * t' + a + 0) (d + (d + b)) ≡ true = ground arith in
      let d' : back a i' -ℤ back b j' ≡ rev_diagonal a b t' d =
        sub_ℕ-sub_ℕ a (suc i') b (suc j')
        ∙ sub_ℕ_eq (a + suc j') (suc i' + b) (2 * t' + a) (d + b) (omega arith)
        ∙ sym (rev_diagonal_eq a b t' d) in
      rw (ends, even, rev_low_test t' d, rev_high_test t' d, low, high)
        (overlap_test a i i' (fv (rev_diagonal a b t' d)) _ (back a i') (back b j')
          (rev_diagonal a b t' d) (ap fv (sym k) ∙ held) refl
          (along (fv (rev_diagonal a b t' d)) (rev_diagonal a b t' d)) d')

  pub reverse_overlap-true :
      (t' d : ℕ) (fv : DPaths) (s : Snake)
      → reverse_overlap a b eq d (diagonal t' d) fv s ≡ true
      → (t : ℕ) × (t ≤ d) × Same t d t' d
  unfolding reverse_overlap
  reverse_overlap-true t' d fv s h =
      let (even', low, high, over) =
        four_true (not (is_odd (sub_ℕ a b))) _ _
          (ends_of_furthest_d_paths_overlap
            (point_on (fv (rev_diagonal a b t' d)) (rev_diagonal a b t' d)) s.end)
          h in
      let low' = leb→le _ _ (sym (rev_low_test t' d) ∙ low) in
      let high' = leb→le _ _ (sym (rev_high_test t' d) ∙ high) in
      elim (halves (a + b)) [
        | inl (n, even) ↦ (t' + a - n, omega arith, omega arith)
        | inr (n, even) ↦ let odd' = is_odd-true a b n even in absurd (ground (arith, even', odd'))
      ]
