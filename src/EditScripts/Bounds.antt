-- ===== src/EditScripts/Bounds.antt =====
-- The indexes of a `d_path_vec` of `include/abg-diff-utils.h` that the searches use, against its size.
use cyglibabigail.Base.{
  ℕ, zero, suc, ◌+◌, ◌-◌, ◌*◌, ◌≤◌, ◌<◌, Bool, true, ◌≡◌, refl, ap, arith, if◌then◌else◌, ℤ, pos,
  sub_ℕ, sub_ℕ-+ℤ, ◌+ℤ◌, ◌-ℤ◌, eqb_ℤ, leb_ℤ, ltb_ℤ, int_laws,
}
use cyglibabigail.EditScripts.Paths.{
  DPaths, store, max_d, offset, vector_size, place, goes_down, fr_begin, end_of_fr_d_path_in_k,
}
use cyglibabigail.EditScripts.Ends.{diagonal, goes_down_lem, goes_down-suc}

not_negative : (x y : ℕ) → y ≤ x → leb_ℤ (pos 0) (sub_ℕ x y) ≡ true
unfolding sub_ℕ
not_negative x y h = ground arith

below_size : (x y n : ℕ) → x < y + n → ltb_ℤ (sub_ℕ x y) (pos n) ≡ true
unfolding sub_ℕ
below_size x y n h = ground arith

module _ (a b : ℕ) where
  -- The place of the index is one of the vector's.
  abbrev pub InVector : ℤ → Type 0
  InVector index =
      (leb_ℤ (pos 0) (place a b index) ≡ true)
      × (ltb_ℤ (place a b index) (pos (vector_size a b)) ≡ true)

  pub offset_lem : offset a b ≡ a + b + ((a - b) + (b - a))
  unfolding sub_ℕ
  offset_lem = ground arith

  pub sub_ℕ-InVector :
      (p q : ℕ) → q ≤ p + offset a b → p + offset a b < q + vector_size a b → InVector (sub_ℕ p q)
  sub_ℕ-InVector p q h g =
      rw (sub_ℕ-+ℤ p q (offset a b))
        (not_negative (p + offset a b) q h, below_size (p + offset a b) q (vector_size a b) g)

  diagonal-InVector : (t d : ℕ) → t ≤ d → d ≤ max_d a b → InVector (diagonal t d)
  diagonal-InVector t d h g =
      sub_ℕ-InVector (2 * t) d (omega (arith, offset_lem)) (omega (arith, offset_lem))

  above-InVector : (t d : ℕ) → t ≤ d → d ≤ max_d a b → InVector (diagonal t d +ℤ pos 1)
  above-InVector t d h g =
      rw (sub_ℕ-+ℤ (2 * t) d 1)
        (sub_ℕ-InVector (2 * t + 1) d (omega (arith, offset_lem)) (omega (arith, offset_lem)))

  below-InVector : (s d : ℕ) → s ≤ d → d ≤ max_d a b → InVector (diagonal (suc s) d -ℤ pos 1)
  below-InVector s d h g =
      let e : diagonal (suc s) d -ℤ pos 1 ≡ sub_ℕ (2 * s + 1) d = omega int_laws in
      rw e (sub_ℕ-InVector (2 * s + 1) d (omega (arith, offset_lem)) (omega (arith, offset_lem)))

  -- Two vectors that hold the same where they hold anything.
  abbrev pub Alike : DPaths → DPaths → Type 0
  Alike v w = (index : ℤ) → InVector index → v index ≡ w index

  pub Alike-store : (v w : DPaths) (k x : ℤ) → Alike v w → Alike (store v k x) (store w k x)
  Alike-store v w k x h index inside = ap (λ y. if eqb_ℤ index k then x else y) (h index inside)

  -- A search starts the same from both.
  fr_begin-Alike :
      (v w : DPaths) (t d : ℕ)
      → Alike v w
      → t ≤ d
      → d ≤ max_d a b
      → fr_begin (diagonal t d) v (goes_down (diagonal t d) (pos d) v)
        ≡ fr_begin (diagonal t d) w (goes_down (diagonal t d) (pos d) w)
  fr_begin-Alike v w zero d h less small =
      let above = h _ (above-InVector 0 d less small) in
      rw (goes_down_lem 0 d v, goes_down_lem 0 d w, above) refl
  fr_begin-Alike v w (suc s) d h less small =
      let above = h _ (above-InVector (suc s) d less small) in
      let below = h _ (below-InVector s d (omega arith) small) in
      rw (goes_down-suc s d v, goes_down-suc s d w, above, below) refl

  module _ (eq : ℕ → ℕ → Bool) where
    -- On each diagonal of a step up to `max_d`, `end_of_fr_d_path_in_k` stores at an index that is in
    -- its range. It depends on what the vector holds there alone: from two vectors that hold the same it
    -- gives the same result, and leaves two that hold the same.
    pub end_of_fr_d_path_in_k-InVector :
        (v w : DPaths) (t d : ℕ)
        → Alike v w
        → t ≤ d
        → d ≤ max_d a b
        → InVector (diagonal t d)
          × ((end_of_fr_d_path_in_k a b eq (diagonal t d) (pos d) v).0
              ≡ (end_of_fr_d_path_in_k a b eq (diagonal t d) (pos d) w).0)
          × Alike
              (end_of_fr_d_path_in_k a b eq (diagonal t d) (pos d) v).1
              (end_of_fr_d_path_in_k a b eq (diagonal t d) (pos d) w).1
    unfolding end_of_fr_d_path_in_k
    end_of_fr_d_path_in_k-InVector v w t d h less small =
        let same = fr_begin-Alike v w t d h less small in
        (
          diagonal-InVector t d less small,
          rw same refl,
          rw same (Alike-store v w (diagonal t d) _ h),
        )
