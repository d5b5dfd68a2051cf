-- ===== src/EditScripts/SesLen.antt =====
-- `ses_len` of `include/abg-diff-utils.h`, run forwards: the length of the shortest edit script.
use cyglibabigail.Base.{
  ℕ, zero, suc, ◌+◌, ◌*◌, ◌-◌, ◌≤◌, ◌<◌, ◌⊎◌, Bool, true, false, ◌&&◌, leb, leb→le, Option, none,
  some, ◌==◌, ==_iff, ◌≡◌, refl, ap, ◌∙◌, arith, Bool-cases, inl, inr, ℤ, pos, negsuc, sub_ℕ,
  sub_ℕ_eq, ◌+ℤ◌, ◌-ℤ◌, eqb_ℤ, eqb_ℤ-sub_ℕ, sub_ℕ-+ℤ, int_laws,
}
use mathlib.Core.Path.{subst}
use cyglibabigail.EditScripts.Points.{Snake, empty_snake}
use cyglibabigail.EditScripts.Paths.{DPaths, store, new_d_paths, end_of_fr_d_path_in_k}
use cyglibabigail.EditScripts.Distance.{dist, dist_bounds, dist_parity, dist-le_along}
use cyglibabigail.EditScripts.Mirror.{dist-le_beyond}
use cyglibabigail.EditScripts.Follow.{at, grid, grid-Inside}
use cyglibabigail.EditScripts.Furthest.{Furthest}
use cyglibabigail.EditScripts.Ends.{diagonal}
use cyglibabigail.EditScripts.Sweep.{
  Stored-Ready, Stored-zero, FrReady, FrStored, FrReady-start, FrReady-Landed, FrReady-next,
  FrStored-next,
}
use cyglibabigail.EditScripts.Snakes.{
  last_snake, ses_len_search, ses_len_done, ses_len_diagonals, ses_len_loop, ses_len,
}

pub diagonal_next : (t d : ℕ) → diagonal t d +ℤ pos 2 ≡ diagonal (suc t) d
diagonal_next t d = sub_ℕ-+ℤ (2 * t) d 2 ∙ sub_ℕ_eq (2 * t + 2) d (2 * suc t) d (omega arith)

pub diagonal_first_lem : (d : ℕ) → pos 0 -ℤ pos d ≡ diagonal 0 d
diagonal_first_lem d = omega int_laws

module _ (a b : ℕ) (eq : ℕ → ℕ → Bool) where
  -- The point is not the corner that the search is for.
  abbrev NotCorner : ℕ → ℕ → Type 0
  NotCorner i j = (i == a && j == b) ≡ false

  abbrev ends_at_corner : Snake → Bool
  ends_at_corner s = eqb_ℤ s.end.x (sub_ℕ a 1) && eqb_ℤ s.end.y (sub_ℕ b 1)

  corner_test :
      (i j : ℕ) → (eqb_ℤ (at i) (sub_ℕ a 1) && eqb_ℤ (at j) (sub_ℕ b 1)) ≡ (i == a && j == b)
  corner_test i j = rw (eqb_ℤ-sub_ℕ i 1 a 1, eqb_ℤ-sub_ℕ j 1 b 1) (ground arith)

  -- Within the sequences and away from the corner, the furthest point on the corner's diagonal is
  -- not the furthest; nor is one outside.
  missed :
      (v : DPaths) (d : ℕ)
      → FrStored a b eq NotCorner v d (suc d)
      → d ≤ dist (grid a b eq) a b
      → suc d ≤ dist (grid a b eq) a b
  missed v d h less = elim (Bool-cases (d == dist (grid a b eq) a b)) [
    | inr other ↦ ground arith
    | inl same ↦
        let m = grid a b eq in
        let e : d ≡ dist m a b = (==_iff _ _).0 same in
        let (h', even) = dist_parity m a b in
        let bounds = dist_bounds m a b in
        let t = h' - b in
        let (x, away) = h t (omega arith) in
        let reach : a ≤ x.i = elim (Bool-cases (leb (suc x.i) a)) [
          | inl short ↦
              let l =
                dist-le_along m (suc x.i) (suc x.j) a b (omega (arith, x.on)) (leb→le _ _ short) in
              absurd (omega (arith, x.far.1))
          | inr enough ↦ ground arith
        ] in
        let beyond = dist-le_beyond m a b (grid-Inside a b eq) x.i x.j (inl reach) in
        let p : x.i ≡ a = omega (arith, x.far.0, x.on) in
        let q : x.j ≡ b = omega (arith, x.far.0, x.on) in absurd (ground arith)
  ]

  -- What the loop over the diagonals leaves: the corner reached, or all points of the step away
  -- from it.
  abbrev Swept : ℕ → Bool × DPaths × Snake → Type 0
  Swept d out =
      ((out.0 ≡ true) × (dist (grid a b eq) a b ≤ d))
      ⊎ ((out.0 ≡ false)
          × FrStored a b eq NotCorner out.1 d (suc d)
          × (ends_at_corner out.2 ≡ false))

  -- At the distance 0 the furthest point is within the sequences.
  inside_at_start : (i j : ℕ) → Furthest (grid a b eq) 0 i j → (a < i) ⊎ (b < j) → ⊥
  inside_at_start i j far (inl past) = omega (
    arith,
    far.0,
    dist_bounds (grid a b eq) i j,
    dist_bounds (grid a b eq) a b,
    dist-le_beyond (grid a b eq) a b (grid-Inside a b eq) i j (inl (omega arith)),
  )
  inside_at_start i j far (inr past) = omega (
    arith,
    far.0,
    dist_bounds (grid a b eq) i j,
    dist_bounds (grid a b eq) a b,
    dist-le_beyond (grid a b eq) a b (grid-Inside a b eq) i j (inr (omega arith)),
  )

  past_corner : (i j : ℕ) → (a < i) ⊎ (b < j) → NotCorner i j
  past_corner i j (inl past) = ground arith
  past_corner i j (inr past) = ground arith

  reached :
      (i j d : ℕ)
      → dist (grid a b eq) i j ≤ d
      → (i == a && j == b) ≡ true
      → dist (grid a b eq) a b ≤ d
  reached i j d less corner =
      let p : i ≡ a = ground arith in
      let q : j ≡ b = ground arith in
      subst (λ u. dist (grid a b eq) u b ≤ d) p (subst (λ u. dist (grid a b eq) i u ≤ d) q less)

  -- What a round does by its test.
  abbrev round : ℕ → ℕ → ℤ → DPaths → Snake → Bool → Bool × DPaths × Snake
  round n d k v snak done = elim done [
    | true ↦ (true, v, snak)
    | false ↦ ses_len_diagonals a b eq false n d (k +ℤ pos 2) v snak
  ]

  -- One round, by what its search and its test come to.
  ses_len_diagonals-round :
      (n d : ℕ) (k : ℤ) (v : DPaths) (snak : Snake) (found : Option Snake) (done : Bool)
      → (end_of_fr_d_path_in_k a b eq k (pos d) v).0 ≡ found
      → ends_at_corner (last_snake found snak) ≡ done
      → ses_len_diagonals a b eq false (suc n) d k v snak
        ≡ round n d k (end_of_fr_d_path_in_k a b eq k (pos d) v).1 (last_snake found snak) done
  unfolding ses_len_diagonals ses_len_search ses_len_done
  ses_len_diagonals-round n d k v snak found done h test =
      let w = (end_of_fr_d_path_in_k a b eq k (pos d) v).1 in
      subst
        (λ o.
          ses_len_diagonals a b eq false (suc n) d k v snak
          ≡ round n d k w (last_snake o snak) (ends_at_corner (last_snake o snak)))
        h refl
      ∙ ap (λ c. round n d k w (last_snake found snak) c) test

  ses_len_diagonals-Swept :
      (n t d : ℕ) (v : DPaths) (snak : Snake)
      → t + n ≡ suc d
      → FrReady a b eq v d
      → FrStored a b eq NotCorner v d t
      → (ends_at_corner snak ≡ false) ⊎ ((d ≡ 0) × (t ≡ 0))
      → Swept d (ses_len_diagonals a b eq false n d (diagonal t d) v snak)
  unfolding last_snake ses_len_diagonals
  ses_len_diagonals-Swept zero t d v snak e r h quiet =
      let f : t ≡ suc d = omega arith in
      (inr (
        refl,
        subst (λ u. FrStored a b eq NotCorner v d u) f h,
        elim quiet [ inl q ↦ q | inr (g, g') ↦ absurd (omega arith) ],
      ))
  ses_len_diagonals-Swept (suc n) t d v snak e r h quiet =
      let l = FrReady-Landed a b eq v d t (omega arith) r in
      let next = FrReady-next a b eq v d t (omega arith) r l in
      let w = (end_of_fr_d_path_in_k a b eq (diagonal t d) (pos d) v).1 in
      elim l.found [
        | inl (in_a, in_b, (s, found, begins, leads, ends, forward)) ↦
            let test : ends_at_corner s ≡ (l.i == a && l.j == b) = rw ends (corner_test l.i l.j) in
            elim (Bool-cases (l.i == a && l.j == b)) [
              | inl corner ↦
                  rw
                    (ses_len_diagonals-round n d (diagonal t d) v snak (some s) true found
                      (test ∙ corner))
                    (inl (refl, reached l.i l.j d l.far.0 corner))
              | inr away ↦
                  rw
                    (
                      ses_len_diagonals-round n d (diagonal t d) v snak (some s) false found
                          (test ∙ away),
                      diagonal_next t d,
                    )
                    (ses_len_diagonals-Swept n (suc t) d w s (omega arith) next
                      (FrStored-next a b eq NotCorner v d t h l away) (inl (test ∙ away)))
            ]
        | inr (past, found) ↦ elim quiet [
          | inl quiet' ↦
              rw
                (
                  ses_len_diagonals-round n d (diagonal t d) v snak none false found quiet',
                  diagonal_next t d,
                )
                (ses_len_diagonals-Swept n (suc t) d w snak (omega arith) next
                  (FrStored-next a b eq NotCorner v d t h l (past_corner l.i l.j past))
                  (inl quiet'))
          | inr (f, g) ↦
              absurd (
                inside_at_start l.i l.j (subst (λ u. Furthest (grid a b eq) u l.i l.j) f l.far)
                  past)
        ]
      ]

  abbrev step : ℕ → ℕ → Bool × DPaths × Snake → ℕ
  step n d out = elim out.0 [ true ↦ d | false ↦ ses_len_loop a b eq false n (suc d) out.1 out.2 ]

  ses_len_loop-dist :
      (n d : ℕ) (v : DPaths) (snak : Snake)
      → d + n ≡ suc (a + b)
      → d ≤ dist (grid a b eq) a b
      → FrReady a b eq v d
      → (ends_at_corner snak ≡ false) ⊎ (d ≡ 0)
      → ses_len_loop a b eq false n d v snak ≡ dist (grid a b eq) a b
  unfolding ses_len_loop
  ses_len_loop-dist zero d v snak e less r quiet =
      absurd (omega (arith, dist_bounds (grid a b eq) a b))
  ses_len_loop-dist (suc n) d v snak e less r quiet =
      let out = ses_len_diagonals a b eq false (suc d) d (diagonal 0 d) v snak in
      let whole : ses_len_loop a b eq false (suc n) d v snak ≡ step n d out =
        ap (λ k. step n d (ses_len_diagonals a b eq false (suc d) d k v snak))
          (diagonal_first_lem d) in
      elim (ses_len_diagonals-Swept (suc d) 0 d v snak (omega arith) r
        (Stored-zero (grid a b eq) at diagonal (λ t d. d) (λ t d. 2 * t) (pos 1) (negsuc 0)
          NotCorner v d)
        (elim quiet [ inl q ↦ inl q | inr q ↦ inr (q, refl) ])) [
          | inl (done, near) ↦ rw (whole, done) (omega arith)
          | inr (going, stored, quiet') ↦
              rw (whole, going)
                (ses_len_loop-dist n (suc d) out.1 out.2 (omega arith) (missed _ d stored less)
                  (Stored-Ready (grid a b eq) at diagonal (λ t d. d) (λ t d. 2 * t) (pos 1)
                    (negsuc 0) NotCorner _ d stored)
                  (inl quiet'))
        ]

  -- The length that `ses_len` finds from the first elements, for all elements, is the least number of
  -- deletions and insertions between the two sequences.
  pub ses_len_lem : ses_len a b eq false ≡ dist (grid a b eq) a b
  unfolding ses_len
  ses_len_lem =
      ses_len_loop-dist (suc (a + b)) 0 (store new_d_paths (pos 1) (negsuc 0)) empty_snake
        (omega arith) (omega arith) (FrReady-start a b eq) (inr refl)
