-- ===== src/EditScripts/ReversePaths.antt =====
-- The loop over paths in reverse in `compute_middle_snake` of `include/abg-diff-utils.h`.
use cyglibabigail.Base.{
  ℕ, zero, suc, ◌+◌, ◌*◌, ◌≤◌, ◌<◌, ◌⊎◌, Bool, true, false, leb, leb→le, Option, none, some, ◌==◌,
  ==_iff, ◌≡◌, refl, sym, ap, ◌∙◌, arith, Bool-cases, inl, inr, ℤ, pos, ◌+ℤ◌,
}
use mathlib.Core.Path.{subst}
use cyglibabigail.EditScripts.Points.{point, Snake}
use cyglibabigail.EditScripts.Paths.{DPaths, end_of_frr_d_path_in_k_plus_delta}
use cyglibabigail.EditScripts.Distance.{dist}
use cyglibabigail.EditScripts.Follow.{
  Run, back, grid, mirror_grid, grid-Mirrors, grid-Inside, mirror_grid-Inside,
}
use cyglibabigail.EditScripts.Tables.{On}
use cyglibabigail.EditScripts.Ends.{diagonal}
use cyglibabigail.EditScripts.Sweep.{
  FrReady, FrrReady, FrrStored, FrrReady-Landed, FrrReady-next, FrrStored-next,
}
use cyglibabigail.EditScripts.SesLen.{diagonal_next}
use cyglibabigail.EditScripts.Meet.{meeting}
use cyglibabigail.EditScripts.Overlap.{reverse_overlap-Same, reverse_overlap-true}
use cyglibabigail.EditScripts.Middle.{Middle, reverse-Middle}
use cyglibabigail.EditScripts.ForwardPaths.{whole}
use cyglibabigail.EditScripts.Snakes.{Search, reverse_overlap, reverse_paths}

module _ (a b : ℕ) (eq : ℕ → ℕ → Bool) where
  -- The point, counted from the last elements, is not at or past the end of a forward path of the step.
  abbrev pub ReverseApart : (d : ℕ) (fv : DPaths) → FrReady a b eq fv (suc d) → ℕ → ℕ → Type 0
  ReverseApart d fv r i j =
      i ≤ a
      → j ≤ b
      → (t : ℕ) (h : t ≤ d) → (r t h).i + i + b ≡ (r t h).j + j + a
      → (r t h).i + i < a

  -- What a round does by its test.
  abbrev reverse_round : ℕ → ℕ → ℤ → DPaths → DPaths → Snake → Bool → Search
  reverse_round n d k w fv s over = elim over [
    | true ↦ (some (s, 2 * d), w)
    | false ↦ reverse_paths a b eq n d (k +ℤ pos 2) fv w
  ]

  abbrev reverse_search : ℕ → ℕ → ℤ → DPaths → DPaths → Option Snake → Search
  reverse_search n d k w fv found = elim found [
    | none ↦ reverse_paths a b eq n d (k +ℤ pos 2) fv w
    | some s ↦ reverse_round n d k w fv s (reverse_overlap a b eq d k fv s)
  ]

  reverse_paths-none :
      (n d : ℕ) (k : ℤ) (v fv : DPaths)
      → let out = end_of_frr_d_path_in_k_plus_delta a b eq k (pos d) v in
        out.0 ≡ none
        → reverse_paths a b eq (suc n) d k fv v ≡ reverse_paths a b eq n d (k +ℤ pos 2) fv out.1
  unfolding reverse_paths
  reverse_paths-none n d k v fv h =
      let w = (end_of_frr_d_path_in_k_plus_delta a b eq k (pos d) v).1 in
      subst (λ o. reverse_paths a b eq (suc n) d k fv v ≡ reverse_search n d k w fv o) h refl

  reverse_paths-some :
      (n d : ℕ) (k : ℤ) (v fv : DPaths) (s : Snake) (over : Bool)
      → let out = end_of_frr_d_path_in_k_plus_delta a b eq k (pos d) v in
        out.0 ≡ some s
        → reverse_overlap a b eq d k fv s ≡ over
        → reverse_paths a b eq (suc n) d k fv v ≡ reverse_round n d k out.1 fv s over
  unfolding reverse_paths
  reverse_paths-some n d k v fv s over h test =
      let w = (end_of_frr_d_path_in_k_plus_delta a b eq k (pos d) v).1 in
      subst (λ o. reverse_paths a b eq (suc n) d k fv v ≡ reverse_search n d k w fv o) h refl
      ∙ ap (reverse_round n d k w fv s) test

  -- The test fails: the point is apart.
  overlap-ReverseApart :
      (d t' i j : ℕ) (fv : DPaths) (r : FrReady a b eq fv (suc d)) (s : Snake)
      → s.end ≡ point (back a i) (back b j)
      → On (2 * t') d i j
      → reverse_overlap a b eq d (diagonal t' d) fv s ≡ false
      → ReverseApart d fv r i j
  overlap-ReverseApart d t' i j fv r s ends on test = λ in_a in_b t h same.
      let x = r t h in
      let p =
        reverse_overlap-Same a b eq t t' d x.i i j fv s h ends on x.held (omega (arith, x.on)) in
      ground (arith, p, test)

  past-ReverseApart :
      (d i j : ℕ) (fv : DPaths) (r : FrReady a b eq fv (suc d))
      → (a < i) ⊎ (b < j)
      → ReverseApart d fv r i j
  past-ReverseApart d i j fv r (inl past) = λ in_a in_b t h same. absurd (omega arith)
  past-ReverseApart d i j fv r (inr past) = λ in_a in_b t h same. absurd (omega arith)

  -- What the loop over the diagonals leaves: a middle snake, or the points of the step, all apart.
  abbrev pub ReverseSwept : (d : ℕ) (fv : DPaths) → FrReady a b eq fv (suc d) → Search → Type 0
  ReverseSwept d fv r out =
      ((s : Snake) × (n : ℕ) × (out.0 ≡ some (s, n)) × Middle a b eq s n)
      ⊎ ((out.0 ≡ none) × FrrStored a b eq (ReverseApart d fv r) out.1 d (suc d))

  -- The test holds: the snake is a middle one.
  overlap-Middle :
      (d t' i₀ j₀ r i j : ℕ) (fv : DPaths) (ready : FrReady a b eq fv (suc d)) (s : Snake)
      → reverse_overlap a b eq d (diagonal t' d) fv s ≡ true
      → 2 * d ≤ whole a b eq
      → r + i₀ ≡ i
      → r + j₀ ≡ j
      → i ≤ a
      → j ≤ b
      → On (2 * t') d i j
      → s.intermediate ≡ point (back a i₀) (back b j₀)
      → s.end ≡ point (back a i) (back b j)
      → s.is_forward ≡ false
      → Run (mirror_grid a b eq) i₀ j₀ r
      → dist (mirror_grid a b eq) i j ≤ d
      → Middle a b eq s (2 * d)
  overlap-Middle d t' i₀ j₀ r i j fv ready s test far p q in_a in_b on mid ends rev run near =
      let (t, h, same) = reverse_overlap-true a b eq t' d fv s test in
      let x = ready t h in
      let over = reverse_overlap-Same a b eq t t' d x.i i j fv s h ends on x.held same in
      let over' : leb a (x.i + i) ≡ true = sym over ∙ test in
      reverse-Middle a b eq s d i₀ j₀ r x.i x.j mid (rw (p, q) ends) rev run (omega arith)
        (omega arith) (rw (p, q) near) x.far.0 (omega (arith, leb→le _ _ over'))
        (omega (arith, x.on)) far

  pub reverse_paths-Swept :
      (n t d : ℕ) (v fv : DPaths) (ready : FrReady a b eq fv (suc d))
      → t + n ≡ suc d
      → 2 * d ≤ whole a b eq
      → FrrReady a b eq v d
      → FrrStored a b eq (ReverseApart d fv ready) v d t
      → ReverseSwept d fv ready (reverse_paths a b eq n d (diagonal t d) fv v)
  unfolding reverse_paths
  reverse_paths-Swept zero t d v fv ready e far r h =
      let f : t ≡ suc d = omega arith in
      inr (refl, subst (λ u. FrrStored a b eq (ReverseApart d fv ready) v d u) f h)
  reverse_paths-Swept (suc n) t d v fv ready e far r h =
      let l = FrrReady-Landed a b eq v d t (omega arith) r in
      let next = FrrReady-next a b eq v d t (omega arith) r l in
      let w = (end_of_frr_d_path_in_k_plus_delta a b eq (diagonal t d) (pos d) v).1 in
      elim l.found [
        | inl (in_a, in_b, (s, found, begins, mid, ends, rev)) ↦
            elim (Bool-cases (reverse_overlap a b eq d (diagonal t d) fv s)) [
              | inl over ↦ rw (reverse_paths-some n d (diagonal t d) v fv s true found over) (
                  inl (
                    s,
                    2 * d,
                    refl,
                    overlap-Middle d t l.i₀ l.j₀ l.r l.i l.j fv ready s over far l.at_i l.at_j in_a
                        in_b l.on mid ends rev l.run l.far.0,
                  ))
              | inr apart ↦
                  rw
                    (
                      reverse_paths-some n d (diagonal t d) v fv s false found apart,
                      diagonal_next t d,
                    )
                    (reverse_paths-Swept n (suc t) d w fv ready (omega arith) far next (
                      FrrStored-next a b eq (ReverseApart d fv ready) v d t h l
                        (overlap-ReverseApart d t l.i l.j fv ready s ends l.on apart)))
            ]
        | inr (past, found) ↦
            rw (reverse_paths-none n d (diagonal t d) v fv found, diagonal_next t d)
              (reverse_paths-Swept n (suc t) d w fv ready (omega arith) far next (
                FrrStored-next a b eq (ReverseApart d fv ready) v d t h l
                  (past-ReverseApart d l.i l.j fv ready past)))
      ]

  -- Then the whole is not reached by a step in reverse.
  pub reverse_missed :
      (d : ℕ) (v fv : DPaths) (ready : FrReady a b eq fv (suc d))
      → FrrStored a b eq (ReverseApart d fv ready) v d (suc d)
      → 2 * d ≤ whole a b eq
      → 2 * suc d ≤ suc (whole a b eq)
  reverse_missed d v fv ready h far = elim (Bool-cases (whole a b eq == d + d)) [
    | inr other ↦ ground arith
    | inl reached ↦
        let z : whole a b eq ≡ d + d = (==_iff _ _).0 reached in
        let p =
          meeting (grid a b eq) (mirror_grid a b eq) a b (grid-Mirrors a b eq) d d
            (grid-Inside a b eq) (mirror_grid-Inside a b eq) z in
        let (x', apart) = h p.t' (omega (arith, p.in_e)) in
        let x = ready p.t p.in_d in
        let (in_a, in_b) = p.within' x'.i x'.j x'.on x'.far in
        let over = p.meet x.i x.j x'.i x'.j x.on x.far x'.on x'.far in
        absurd
          (omega (arith, over, apart in_a in_b p.t p.in_d (omega (arith, x.on, x'.on, p.diagonal))))
  ]
