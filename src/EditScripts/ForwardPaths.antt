-- ===== src/EditScripts/ForwardPaths.antt =====
-- The loop over forward paths in `compute_middle_snake` of `include/abg-diff-utils.h`.
use cyglibabigail.Base.{
  ℕ, zero, suc, ◌+◌, ◌-◌, ◌*◌, ◌≤◌, ◌<◌, ◌⊎◌, Bool, true, false, leb, leb→le, Option, none, some,
  ◌==◌, ==_iff, ◌≡◌, refl, sym, ap, ◌∙◌, arith, Bool-cases, inl, inr, ℤ, pos, ◌+ℤ◌,
}
use mathlib.Core.Path.{subst}
use cyglibabigail.EditScripts.Points.{point, Snake}
use cyglibabigail.EditScripts.Paths.{DPaths, end_of_fr_d_path_in_k}
use cyglibabigail.EditScripts.Distance.{dist}
use cyglibabigail.EditScripts.Follow.{
  Run, at, grid, mirror_grid, grid-Mirrors, grid-Inside, mirror_grid-Inside,
}
use cyglibabigail.EditScripts.Tables.{On}
use cyglibabigail.EditScripts.Ends.{diagonal, FrCame}
use cyglibabigail.EditScripts.Sweep.{
  FrReady, FrStored, FrReady-Landed, FrReady-next, FrStored-next, FrrReady,
}
use cyglibabigail.EditScripts.SesLen.{diagonal_next}
use cyglibabigail.EditScripts.Meet.{meeting}
use cyglibabigail.EditScripts.Overlap.{forward_overlap-Same, forward_overlap-true}
use cyglibabigail.EditScripts.Middle.{Middle, forward-Middle}
use cyglibabigail.EditScripts.Snakes.{Search, forward_overlap, forward_paths}

module _ (a b : ℕ) (eq : ℕ → ℕ → Bool) where
  -- The whole, which the searches are for.
  abbrev pub whole : ℕ
  whole = dist (grid a b eq) a b

  -- The point is not at or past the end of a reverse path of the step before.
  abbrev pub ForwardApart : (d : ℕ) (rv : DPaths) → FrrReady a b eq rv d → ℕ → ℕ → Type 0
  ForwardApart zero rv r i j = Unit {0}
  ForwardApart (suc e) rv r i j =
      i ≤ a
      → j ≤ b
      → (t' : ℕ) (h : t' ≤ e) → i + (r t' h).i + b ≡ j + (r t' h).j + a
      → i + (r t' h).i < a

  -- What a round does by its test.
  abbrev forward_round : ℕ → ℕ → ℤ → DPaths → DPaths → Snake → Bool → Search
  forward_round n d k w rv s over = elim over [
    | true ↦ (some (s, 2 * d - 1), w)
    | false ↦ forward_paths a b eq n d (k +ℤ pos 2) w rv
  ]

  abbrev forward_search : ℕ → ℕ → ℤ → DPaths → DPaths → Option Snake → Search
  forward_search n d k w rv found = elim found [
    | none ↦ forward_paths a b eq n d (k +ℤ pos 2) w rv
    | some s ↦ forward_round n d k w rv s (forward_overlap a b eq d k rv s)
  ]

  forward_paths-none :
      (n d : ℕ) (k : ℤ) (v rv : DPaths)
      → let out = end_of_fr_d_path_in_k a b eq k (pos d) v in
        out.0 ≡ none
        → forward_paths a b eq (suc n) d k v rv ≡ forward_paths a b eq n d (k +ℤ pos 2) out.1 rv
  unfolding forward_paths
  forward_paths-none n d k v rv h =
      let w = (end_of_fr_d_path_in_k a b eq k (pos d) v).1 in
      subst (λ o. forward_paths a b eq (suc n) d k v rv ≡ forward_search n d k w rv o) h refl

  forward_paths-some :
      (n d : ℕ) (k : ℤ) (v rv : DPaths) (s : Snake) (over : Bool)
      → let out = end_of_fr_d_path_in_k a b eq k (pos d) v in
        out.0 ≡ some s
        → forward_overlap a b eq d k rv s ≡ over
        → forward_paths a b eq (suc n) d k v rv ≡ forward_round n d k out.1 rv s over
  unfolding forward_paths
  forward_paths-some n d k v rv s over h test =
      let w = (end_of_fr_d_path_in_k a b eq k (pos d) v).1 in
      subst (λ o. forward_paths a b eq (suc n) d k v rv ≡ forward_search n d k w rv o) h refl
      ∙ ap (forward_round n d k w rv s) test

  -- The test fails: the point is apart.
  overlap-ForwardApart :
      (d t i j : ℕ) (rv : DPaths) (r : FrrReady a b eq rv d) (s : Snake)
      → s.end ≡ point (at i) (at j)
      → On d (2 * t) i j
      → forward_overlap a b eq d (diagonal t d) rv s ≡ false
      → ForwardApart d rv r i j
  overlap-ForwardApart zero t i j rv r s ends on test = tt
  overlap-ForwardApart (suc e) t i j rv r s ends on test = λ in_a in_b t' h same.
      let x = r t' h in
      let p =
        forward_overlap-Same a b eq t e t' i j x.i rv s h ends on x.held (omega (arith, x.on)) in
      ground (arith, p, test)

  past-ForwardApart :
      (d i j : ℕ) (rv : DPaths) (r : FrrReady a b eq rv d)
      → (a < i) ⊎ (b < j)
      → ForwardApart d rv r i j
  past-ForwardApart zero i j rv r past = tt
  past-ForwardApart (suc e) i j rv r (inl past) = λ in_a in_b t' h same. absurd (omega arith)
  past-ForwardApart (suc e) i j rv r (inr past) = λ in_a in_b t' h same. absurd (omega arith)

  -- What the loop over the diagonals leaves: a middle snake, or the points of the step, all apart.
  abbrev pub ForwardSwept : (d : ℕ) (rv : DPaths) → FrrReady a b eq rv d → Search → Type 0
  ForwardSwept d rv r out =
      ((s : Snake) × (n : ℕ) × (out.0 ≡ some (s, n)) × Middle a b eq s n)
      ⊎ ((out.0 ≡ none) × FrStored a b eq (ForwardApart d rv r) out.1 d (suc d))

  -- The test holds: the snake is a middle one.
  overlap-Middle :
      (d t i₀ j₀ r i j : ℕ) (rv : DPaths) (ready : FrrReady a b eq rv d) (s : Snake)
      → forward_overlap a b eq d (diagonal t d) rv s ≡ true
      → 2 * d ≤ suc whole
      → r + i₀ ≡ i
      → r + j₀ ≡ j
      → i ≤ a
      → j ≤ b
      → On d (2 * t) i j
      → s.intermediate ≡ point (at i₀) (at j₀)
      → s.end ≡ point (at i) (at j)
      → s.is_forward ≡ true
      → FrCame a b eq d i₀ j₀ s.begin
      → Run (grid a b eq) i₀ j₀ r
      → dist (grid a b eq) i j ≤ d
      → Middle a b eq s (2 * d - 1)
  overlap-Middle zero t i₀ j₀ r i j rv ready s test far p q in_a in_b on mid ends fwd came run
        near =
      let (e, t', d, h, same) = forward_overlap-true a b eq t 0 rv s test in absurd (omega arith)
  overlap-Middle (suc e) t i₀ j₀ r i j rv ready s test far p q in_a in_b on mid ends fwd came run
        near =
      let (e', t', d, h, same) = forward_overlap-true a b eq t (suc e) rv s test in
      let h' : t' ≤ e = omega arith in
      let x = ready t' h' in
      let over = forward_overlap-Same a b eq t e t' i j x.i rv s h' ends on x.held (omega arith) in
      let over' : leb a (i + x.i) ≡ true = sym over ∙ test in
      forward-Middle a b eq s e i₀ j₀ r x.i x.j mid (rw (p, q) ends) fwd came run (omega arith)
        (omega arith) (rw (p, q) near) x.far.0 (omega (arith, leb→le _ _ over'))
        (omega (arith, x.on)) (omega arith)

  pub forward_paths-Swept :
      (n t d : ℕ) (v rv : DPaths) (ready : FrrReady a b eq rv d)
      → t + n ≡ suc d
      → 2 * d ≤ suc whole
      → FrReady a b eq v d
      → FrStored a b eq (ForwardApart d rv ready) v d t
      → ForwardSwept d rv ready (forward_paths a b eq n d (diagonal t d) v rv)
  unfolding forward_paths
  forward_paths-Swept zero t d v rv ready e far r h =
      let f : t ≡ suc d = omega arith in
      inr (refl, subst (λ u. FrStored a b eq (ForwardApart d rv ready) v d u) f h)
  forward_paths-Swept (suc n) t d v rv ready e far r h =
      let l = FrReady-Landed a b eq v d t (omega arith) r in
      let next = FrReady-next a b eq v d t (omega arith) r l in
      let w = (end_of_fr_d_path_in_k a b eq (diagonal t d) (pos d) v).1 in
      elim l.found [
        | inl (in_a, in_b, (s, found, begins, mid, ends, fwd)) ↦
            elim (Bool-cases (forward_overlap a b eq d (diagonal t d) rv s)) [
              | inl over ↦ rw (forward_paths-some n d (diagonal t d) v rv s true found over) (
                  inl (
                    s,
                    2 * d - 1,
                    refl,
                    overlap-Middle d t l.i₀ l.j₀ l.r l.i l.j rv ready s over far l.at_i l.at_j in_a
                        in_b l.on mid ends fwd (rw begins l.came) l.run l.far.0,
                  ))
              | inr apart ↦
                  rw
                    (
                      forward_paths-some n d (diagonal t d) v rv s false found apart,
                      diagonal_next t d,
                    )
                    (forward_paths-Swept n (suc t) d w rv ready (omega arith) far next (
                      FrStored-next a b eq (ForwardApart d rv ready) v d t h l
                        (overlap-ForwardApart d t l.i l.j rv ready s ends l.on apart)))
            ]
        | inr (past, found) ↦
            rw (forward_paths-none n d (diagonal t d) v rv found, diagonal_next t d)
              (forward_paths-Swept n (suc t) d w rv ready (omega arith) far next (
                FrStored-next a b eq (ForwardApart d rv ready) v d t h l
                  (past-ForwardApart d l.i l.j rv ready past)))
      ]

  -- Then the whole is not reached by a step forwards.
  pub forward_missed :
      (d : ℕ) (v rv : DPaths) (ready : FrrReady a b eq rv d)
      → FrStored a b eq (ForwardApart d rv ready) v d (suc d)
      → 2 * d ≤ suc whole
      → 2 * d ≤ whole
  forward_missed zero v rv ready h far = omega arith
  forward_missed (suc e) v rv ready h far = elim (Bool-cases (whole == suc e + e)) [
    | inr other ↦ ground arith
    | inl reached ↦
        let z : whole ≡ suc e + e = (==_iff _ _).0 reached in
        let p =
          meeting (grid a b eq) (mirror_grid a b eq) a b (grid-Mirrors a b eq) (suc e) e
            (grid-Inside a b eq) (mirror_grid-Inside a b eq) z in
        let (x, apart) = h p.t (omega (arith, p.in_d)) in
        let x' = ready p.t' p.in_e in
        let (in_a, in_b) = p.within x.i x.j x.on x.far in
        let over = p.meet x.i x.j x'.i x'.j x.on x.far x'.on x'.far in
        absurd (
          omega (arith, over, apart in_a in_b p.t' p.in_e (omega (arith, x.on, x'.on, p.diagonal))))
  ]
