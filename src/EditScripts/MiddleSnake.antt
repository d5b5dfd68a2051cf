-- ===== src/EditScripts/MiddleSnake.antt =====
-- `compute_middle_snake` of `include/abg-diff-utils.h` finds a middle snake.
use cyglibabigail.Base.{
  ℕ, zero, suc, ◌+◌, ◌*◌, ◌/◌, ◌≤◌, ◌<◌, Bool, Option, none, some, ◌≡◌, ap, ◌∙◌, arith, inl, inr, ℤ,
  pos, negsuc, sub_ℕ, ◌+ℤ◌,
}
use cyglibabigail.EditScripts.Points.{Snake}
use cyglibabigail.EditScripts.Paths.{DPaths, store, new_d_paths}
use cyglibabigail.EditScripts.Distance.{dist_bounds}
use cyglibabigail.EditScripts.Follow.{grid}
use cyglibabigail.EditScripts.Ends.{diagonal}
use cyglibabigail.EditScripts.Sweep.{FrReady, FrReady-start, FrrReady, FrrReady-start}
use cyglibabigail.EditScripts.SesLen.{diagonal_first_lem}
use cyglibabigail.EditScripts.Middle.{Middle}
use cyglibabigail.EditScripts.ForwardPaths.{whole, forward_paths-Swept, forward_missed}
use cyglibabigail.EditScripts.ReversePaths.{reverse_paths-Swept, reverse_missed}
use cyglibabigail.EditScripts.Snakes.{
  Search, forward_paths, reverse_paths, middle_snake_loop, compute_middle_snake,
}

module _ (a b : ℕ) (eq : ℕ → ℕ → Bool) where
  abbrev reverse_result : ℕ → ℕ → DPaths → Search → Option (Snake × ℕ)
  reverse_result n d fv out = elim out.0 [
    | some result ↦ some result
    | none ↦ middle_snake_loop a b eq n (suc d) fv out.1
  ]

  abbrev forward_result : ℕ → ℕ → ℤ → DPaths → Search → Option (Snake × ℕ)
  forward_result n d k rv out = elim out.0 [
    | some result ↦ some result
    | none ↦ reverse_result n d out.1 (reverse_paths a b eq (suc d) d k out.1 rv)
  ]

  middle_snake_loop-forward_paths :
      (n d : ℕ) (fv rv : DPaths)
      → middle_snake_loop a b eq (suc n) d fv rv
        ≡ forward_result n d (diagonal 0 d) rv (forward_paths a b eq (suc d) d (diagonal 0 d) fv rv)
  unfolding middle_snake_loop
  middle_snake_loop-forward_paths n d fv rv =
      ap (λ k. forward_result n d k rv (forward_paths a b eq (suc d) d k fv rv))
        (diagonal_first_lem d)

  -- A step finds a middle snake, or leaves what the next needs; the steps do not run out.
  middle_snake_loop-Middle :
      (n d : ℕ) (fv rv : DPaths)
      → suc (whole a b eq) < 2 * (d + n)
      → 2 * d ≤ suc (whole a b eq)
      → FrReady a b eq fv d
      → FrrReady a b eq rv d
      → (s : Snake) × (m : ℕ) × (middle_snake_loop a b eq n d fv rv ≡ some (s, m))
        × Middle a b eq s m
  middle_snake_loop-Middle zero d fv rv enough far r r' = absurd (omega arith)
  middle_snake_loop-Middle (suc n) d fv rv enough far r r' =
      let k = diagonal 0 d in
      let f = forward_paths a b eq (suc d) d k fv rv in
      let step = middle_snake_loop-forward_paths n d fv rv in
      elim (forward_paths-Swept a b eq (suc d) 0 d fv rv r' (omega arith) far r
        (λ s h. absurd (omega arith))) [
          | inl (s, m, found, middle) ↦
              (s, m, step ∙ ap (λ o. forward_result n d k rv (o, f.1)) found, middle)
          | inr (nothing, stored) ↦
              let ready : FrReady a b eq f.1 (suc d) = λ s h. (stored s (omega arith)).0 in
              let far' = forward_missed a b eq d f.1 rv r' stored far in
              let g = reverse_paths a b eq (suc d) d k f.1 rv in
              let step' = step ∙ ap (λ o. forward_result n d k rv (o, f.1)) nothing in
              elim (reverse_paths-Swept a b eq (suc d) 0 d rv f.1 ready (omega arith) far' r'
                (λ s h. absurd (omega arith))) [
                  | inl (s, m, found, middle) ↦
                      (s, m, step' ∙ ap (λ o. reverse_result n d f.1 (o, g.1)) found, middle)
                  | inr (nothing', stored') ↦
                      let far'' = reverse_missed a b eq d g.1 f.1 ready stored' far' in
                      let (s, m, rest, middle) =
                        middle_snake_loop-Middle n (suc d) f.1 g.1 (omega arith) far'' ready
                          (λ s h. (stored' s (omega arith)).0) in
                      (
                        s,
                        m,
                        step' ∙ ap (λ o. reverse_result n d f.1 (o, g.1)) nothing' ∙ rest,
                        middle,
                      )
                ]
        ]

  -- `compute_middle_snake` returns true for all elements. Its snake goes along matches between two
  -- points of the sequences, on a shortest way; the length is the least number of edits, which is that
  -- before the snake and that after it, none of them 0 if the length is at least 2.
  pub compute_middle_snake-Middle :
      (s : Snake) × (m : ℕ) × (compute_middle_snake a b eq ≡ some (s, m)) × Middle a b eq s m
  unfolding compute_middle_snake
  compute_middle_snake-Middle =
      middle_snake_loop-Middle (suc ((b + a) / 2 + 1)) 0 (store new_d_paths (pos 1) (negsuc 0))
        (store new_d_paths (sub_ℕ a b +ℤ pos 1) (pos a))
        (omega (arith, dist_bounds (grid a b eq) a b)) (omega arith) (FrReady-start a b eq)
        (FrrReady-start a b eq)
