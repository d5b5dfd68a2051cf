-- ===== src/EditScripts/Sweep.antt =====
-- How the searches of one step, in `include/abg-diff-utils.h`, fill the vector: each stores at an
-- index of its own, and leaves the entries that the others read.
use cyglibabigail.Base.{
  ℕ, zero, suc, ◌+◌, ◌*◌, ◌≤◌, ◌<◌, Bool, true, false, ltb, Option, ◌≡◌, ◌≢◌, refl, ap, ◌∙◌, arith,
  Bool-cases, inl, inr, ℤ, pos, negsuc, sub_ℕ, ◌+ℤ◌, eqb_ℤ, eqb_ℤ-sub_ℕ, sub_ℕ-+ℤ,
}
use cyglibabigail.EditScripts.Points.{Point, Snake}
use cyglibabigail.EditScripts.Paths.{
  DPaths, store, new_d_paths, end_of_fr_d_path_in_k, end_of_frr_d_path_in_k_plus_delta,
}
use cyglibabigail.EditScripts.Follow.{at, back, grid, mirror_grid}
use cyglibabigail.EditScripts.Tables.{Entry, Entry-store, Landed}
use cyglibabigail.EditScripts.Ends.{
  diagonal, FrCame, FrLanded, FrLanded-zero, end_of_fr_d_path_in_k-Landed,
}
use cyglibabigail.EditScripts.EndsReverse.{
  rev_diagonal, rev_diagonal_eq, FrrLanded, FrrLanded-zero,
  end_of_frr_d_path_in_k_plus_delta-Landed,
}

-- The round `t` of step `d` stores at `index t d`; the first search reads at `first`.
module _ (m : ℕ → ℕ → Bool) (x : ℕ → ℤ) (index : ℕ → ℕ → ℤ) (p q : ℕ → ℕ → ℕ)
    (first start : ℤ) where
  abbrev pub At : DPaths → ℕ → ℕ → Type 0
  At v d t = Entry m x v (index t d) d (p t d) (q t d)

  -- The vector holds what step `d` reads.
  abbrev pub Ready : DPaths → ℕ → Type 0
  Ready v zero = v first ≡ start
  Ready v (suc e) = (s : ℕ) → s ≤ e → At v e s

  -- It holds what the first `t` rounds of step `d` have stored, each point being in `P`.
  abbrev pub Stored : (ℕ → ℕ → Type 0) → DPaths → ℕ → ℕ → Type 0
  Stored P v d t = (s : ℕ) → s < t → (e : At v d s) × P e.i e.j

  pub Stored-Ready :
      (P : ℕ → ℕ → Type 0) (v : DPaths) (d : ℕ) → Stored P v d (suc d) → Ready v (suc d)
  Stored-Ready P v d h s less = (h s (omega arith)).0

  pub Stored-zero : (P : ℕ → ℕ → Type 0) (v : DPaths) (d : ℕ) → Stored P v d 0
  Stored-zero P v d s h = absurd (omega arith)

  module _
      (distinct : (s e t d : ℕ) → 2 * s + d ≢ 2 * t + e → eqb_ℤ (index s e) (index t d) ≡ false)
      (first_distinct : eqb_ℤ first (index 0 0) ≡ false) where
    pub Ready-store :
        (v : DPaths) (d t : ℕ) (y : ℤ) → t ≤ d → Ready v d → Ready (store v (index t d) y) d
    Ready-store v zero t y h r = let e : t ≡ 0 = omega arith in rw (e, first_distinct) r
    Ready-store v (suc d) t y h r = λ s less.
        Entry-store m x v (index s d) (index t (suc d)) y d (p s d) (q s d)
          (distinct s d t (suc d) (λ e. omega arith)) (r s less)

    pub Stored-store :
        (P : ℕ → ℕ → Type 0) (y : ℕ → ℤ) (a b : ℕ) (forward : Bool) (C : ℕ → ℕ → Point → Type 0)
        (v : DPaths) (d t : ℕ) (out : Option Snake × DPaths)
        → Stored P v d t
        → (l : Landed m x y a b forward C v (index t d) d (p t d) (q t d) out) → P l.i l.j
        → Stored P out.1 d (suc t)
    Stored-store P y a b forward C v d t out h l good s less = elim (Bool-cases (ltb s t)) [
      | inl before ↦
          let (e, good') = h s (ground arith) in
          rw l.stored (
            record {
              i = e.i;
              j = e.j;
              on = e.on;
              far = e.far;
              held = rw (distinct s d t d (λ e. ground arith)) e.held;
            },
            good',
          )
      | inr here ↦
          let e : s ≡ t = ground arith in
          let self : eqb_ℤ (index t d) (index t d) ≡ true = ground arith in
          rw e (
            record {
              i = l.i;
              j = l.j;
              on = l.on;
              far = l.far;
              held = ap (λ w. w (index t d)) l.stored ∙ rw self refl;
            },
            good,
          )
    ]

-- The searches of `end_of_fr_d_path_in_k`, from the vector with -1 at 1.
module _ (a b : ℕ) (eq : ℕ → ℕ → Bool) where
  abbrev pub FrReady : DPaths → ℕ → Type 0
  FrReady = Ready (grid a b eq) at diagonal (λ t d. d) (λ t d. 2 * t) (pos 1) (negsuc 0)

  abbrev pub FrStored : (ℕ → ℕ → Type 0) → DPaths → ℕ → ℕ → Type 0
  FrStored = Stored (grid a b eq) at diagonal (λ t d. d) (λ t d. 2 * t) (pos 1) (negsuc 0)

  diagonal_distinct :
      (s e t d : ℕ) → 2 * s + d ≢ 2 * t + e → eqb_ℤ (diagonal s e) (diagonal t d) ≡ false
  diagonal_distinct s e t d h = eqb_ℤ-sub_ℕ (2 * s) e (2 * t) d ∙ ground arith

  diagonal_first : eqb_ℤ (pos 1) (diagonal 0 0) ≡ false
  unfolding sub_ℕ
  diagonal_first = refl

  pub FrReady-start : FrReady (store new_d_paths (pos 1) (negsuc 0)) 0
  FrReady-start = refl

  -- Where the vector holds what step `d` is to read, `end_of_fr_d_path_in_k` on the diagonal of round
  -- `t` goes along matches to the furthest point of the diagonal that `d` edits reach, and stores
  -- it; the snake ends there if that is within the sequences, and is else none.
  pub FrReady-Landed : (v : DPaths) (d t : ℕ) → t ≤ d → FrReady v d → FrLanded a b eq v d t
  unfolding sub_ℕ
  FrReady-Landed v zero t h r = let e : t ≡ 0 = omega arith in rw e (FrLanded-zero a b eq v r)
  FrReady-Landed v (suc e) t h r = end_of_fr_d_path_in_k-Landed a b eq v e t h r

  pub FrReady-next :
      (v : DPaths) (d t : ℕ)
      → t ≤ d
      → FrReady v d
      → (l : FrLanded a b eq v d t)
      → FrReady (end_of_fr_d_path_in_k a b eq (diagonal t d) (pos d) v).1 d
  FrReady-next v d t h r l = rw l.stored (
      Ready-store (grid a b eq) at diagonal (λ t d. d) (λ t d. 2 * t) (pos 1) (negsuc 0)
        diagonal_distinct diagonal_first v d t (at l.i) h r)

  pub FrStored-next :
      (P : ℕ → ℕ → Type 0) (v : DPaths) (d t : ℕ)
      → FrStored P v d t
      → (l : FrLanded a b eq v d t) → P l.i l.j
      → FrStored P (end_of_fr_d_path_in_k a b eq (diagonal t d) (pos d) v).1 d (suc t)
  FrStored-next P v d t h l good =
      Stored-store (grid a b eq) at diagonal (λ t d. d) (λ t d. 2 * t) (pos 1) (negsuc 0)
        diagonal_distinct diagonal_first P at a b true (FrCame a b eq d) v d t _ h l good

-- The searches of `end_of_frr_d_path_in_k_plus_delta`, from the vector with `a_size` at delta + 1.
module _ (a b : ℕ) (eq : ℕ → ℕ → Bool) where
  abbrev pub FrrReady : DPaths → ℕ → Type 0
  FrrReady =
      Ready (mirror_grid a b eq) (back a) (rev_diagonal a b) (λ t d. 2 * t) (λ t d. d)
        (sub_ℕ a b +ℤ pos 1) (pos a)

  abbrev pub FrrStored : (ℕ → ℕ → Type 0) → DPaths → ℕ → ℕ → Type 0
  FrrStored =
      Stored (mirror_grid a b eq) (back a) (rev_diagonal a b) (λ t d. 2 * t) (λ t d. d)
        (sub_ℕ a b +ℤ pos 1) (pos a)

  rev_diagonal_distinct :
      (s e t d : ℕ)
      → 2 * s + d ≢ 2 * t + e
      → eqb_ℤ (rev_diagonal a b s e) (rev_diagonal a b t d) ≡ false
  rev_diagonal_distinct s e t d h =
      rw (rev_diagonal_eq a b s e, rev_diagonal_eq a b t d)
        (eqb_ℤ-sub_ℕ (2 * s + a) (e + b) (2 * t + a) (d + b) ∙ ground arith)

  rev_diagonal_first : eqb_ℤ (sub_ℕ a b +ℤ pos 1) (rev_diagonal a b 0 0) ≡ false
  rev_diagonal_first =
      rw (rev_diagonal_eq a b 0 0, sub_ℕ-+ℤ a b 1)
        (eqb_ℤ-sub_ℕ (a + 1) b (2 * 0 + a) (0 + b) ∙ ground arith)

  pub FrrReady-start : FrrReady (store new_d_paths (sub_ℕ a b +ℤ pos 1) (pos a)) 0
  FrrReady-start =
      let self : eqb_ℤ (sub_ℕ a b +ℤ pos 1) (sub_ℕ a b +ℤ pos 1) ≡ true = ground arith in
      rw self refl

  -- The same of `end_of_frr_d_path_in_k_plus_delta`, counted from the last elements.
  pub FrrReady-Landed : (v : DPaths) (d t : ℕ) → t ≤ d → FrrReady v d → FrrLanded a b eq v d t
  FrrReady-Landed v zero t h r = let e : t ≡ 0 = omega arith in rw e (FrrLanded-zero a b eq v r)
  FrrReady-Landed v (suc e) t h r = end_of_frr_d_path_in_k_plus_delta-Landed a b eq v e t h r

  pub FrrReady-next :
      (v : DPaths) (d t : ℕ)
      → t ≤ d
      → FrrReady v d
      → (l : FrrLanded a b eq v d t)
      → FrrReady (end_of_frr_d_path_in_k_plus_delta a b eq (diagonal t d) (pos d) v).1 d
  FrrReady-next v d t h r l = rw l.stored (
      Ready-store (mirror_grid a b eq) (back a) (rev_diagonal a b) (λ t d. 2 * t) (λ t d. d)
        (sub_ℕ a b +ℤ pos 1) (pos a) rev_diagonal_distinct rev_diagonal_first v d t (back a l.i) h
        r)

  pub FrrStored-next :
      (P : ℕ → ℕ → Type 0) (v : DPaths) (d t : ℕ)
      → FrrStored P v d t
      → (l : FrrLanded a b eq v d t) → P l.i l.j
      → FrrStored P (end_of_frr_d_path_in_k_plus_delta a b eq (diagonal t d) (pos d) v).1 d (suc t)
  FrrStored-next P v d t h l good =
      Stored-store (mirror_grid a b eq) (back a) (rev_diagonal a b) (λ t d. 2 * t) (λ t d. d)
        (sub_ℕ a b +ℤ pos 1) (pos a) rev_diagonal_distinct rev_diagonal_first P (back b) a b false
        (λ i j begin. Unit {0}) v d t _ h l good
