-- ===== src/EditScripts/BoundsReverse.antt =====
-- The indexes that the searches in reverse use in a `d_path_vec` of `include/abg-diff-utils.h`.
use cyglibabigail.Base.{
  ℕ, zero, suc, ◌+◌, ◌*◌, ◌≤◌, Bool, ◌≡◌, refl, arith, pos, sub_ℕ, ◌+ℤ◌, ◌-ℤ◌, int_laws,
}
use cyglibabigail.EditScripts.Paths.{
  DPaths, max_d, goes_left, frr_begin, end_of_frr_d_path_in_k_plus_delta,
}
use cyglibabigail.EditScripts.Ends.{diagonal}
use cyglibabigail.EditScripts.EndsReverse.{
  rev_diagonal, rev_diagonal_eq, goes_left_lem, goes_left-suc,
}
use cyglibabigail.EditScripts.Bounds.{InVector, Alike, Alike-store, offset_lem, sub_ℕ-InVector}

module _ (a b : ℕ) where
  rev_diagonal-InVector : (t d : ℕ) → t ≤ d → d ≤ max_d a b → InVector a b (rev_diagonal a b t d)
  rev_diagonal-InVector t d h g = rw (rev_diagonal_eq a b t d) (
      sub_ℕ-InVector a b (2 * t + a) (d + b) (omega (arith, offset_lem a b))
        (omega (arith, offset_lem a b)))

  above-InVector : (t d : ℕ) → t ≤ d → d ≤ max_d a b → InVector a b (rev_diagonal a b t d +ℤ pos 1)
  above-InVector t d h g =
      let e : rev_diagonal a b t d +ℤ pos 1 ≡ sub_ℕ (2 * t + a + 1) (d + b) = omega int_laws in
      rw e (
        sub_ℕ-InVector a b (2 * t + a + 1) (d + b) (omega (arith, offset_lem a b))
          (omega (arith, offset_lem a b)))

  below-InVector :
      (s d : ℕ) → s ≤ d → d ≤ max_d a b → InVector a b (rev_diagonal a b (suc s) d -ℤ pos 1)
  below-InVector s d h g =
      let e : rev_diagonal a b (suc s) d -ℤ pos 1 ≡ sub_ℕ (2 * s + 1 + a) (d + b) =
        omega int_laws in
      rw e (
        sub_ℕ-InVector a b (2 * s + 1 + a) (d + b) (omega (arith, offset_lem a b))
          (omega (arith, offset_lem a b)))

  -- A search starts the same from both.
  frr_begin-Alike :
      (v w : DPaths) (t d : ℕ)
      → Alike a b v w
      → t ≤ d
      → d ≤ max_d a b
      → frr_begin (rev_diagonal a b t d) v (goes_left (rev_diagonal a b t d) (pos d) (sub_ℕ a b) v)
        ≡ frr_begin
            (rev_diagonal a b t d)
            w
            (goes_left (rev_diagonal a b t d) (pos d) (sub_ℕ a b) w)
  frr_begin-Alike v w zero d h less small =
      let above = h _ (above-InVector 0 d less small) in
      rw (goes_left_lem a b 0 d v, goes_left_lem a b 0 d w, above) refl
  frr_begin-Alike v w (suc s) d h less small =
      let above = h _ (above-InVector (suc s) d less small) in
      let below = h _ (below-InVector s d (omega arith) small) in
      rw (goes_left-suc a b s d v, goes_left-suc a b s d w, above, below) refl

  module _ (eq : ℕ → ℕ → Bool) where
    -- On each diagonal of a step up to `max_d`, `end_of_frr_d_path_in_k_plus_delta` stores at an index
    -- that is in the range of the vector. It depends on what the vector holds there alone: from two
    -- vectors that hold the same it gives the same result, and leaves two that hold the same.
    pub end_of_frr_d_path_in_k_plus_delta-InVector :
        (v w : DPaths) (t d : ℕ)
        → Alike a b v w
        → t ≤ d
        → d ≤ max_d a b
        → InVector a b (rev_diagonal a b t d)
          × ((end_of_frr_d_path_in_k_plus_delta a b eq (diagonal t d) (pos d) v).0
              ≡ (end_of_frr_d_path_in_k_plus_delta a b eq (diagonal t d) (pos d) w).0)
          × Alike a b
              (end_of_frr_d_path_in_k_plus_delta a b eq (diagonal t d) (pos d) v).1
              (end_of_frr_d_path_in_k_plus_delta a b eq (diagonal t d) (pos d) w).1
    unfolding end_of_frr_d_path_in_k_plus_delta
    end_of_frr_d_path_in_k_plus_delta-InVector v w t d h less small =
        let same = frr_begin-Alike v w t d h less small in
        (
          rev_diagonal-InVector t d less small,
          rw same refl,
          rw same (Alike-store a b v w (rev_diagonal a b t d) _ h),
        )
