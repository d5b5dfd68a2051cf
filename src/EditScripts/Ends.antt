-- ===== src/EditScripts/Ends.antt =====
-- `end_of_fr_d_path_in_k` of `include/abg-diff-utils.h` finds the furthest reaching path of its
-- diagonal.
use cyglibabigail.Base.{
  ℕ, zero, suc, ◌+◌, ◌*◌, ◌≤◌, ◌<◌, ◌⊎◌, Bool, true, false, not, ◌&&◌, ◌||◌, ltb, ◌==◌, ◌≡◌, refl,
  ◌∙◌, arith, Bool-cases, inl, inr, ℤ, pos, sub_ℕ, ◌+ℤ◌, ◌-ℤ◌, ltb_ℤ, eqb_ℤ, sub_ℕ_eq, sub_ℕ-sub_ℕ,
  ltb_ℤ-sub_ℕ, sub_ℕ-+ℤ, sub_ℕ--ℤ,
}
use cyglibabigail.EditScripts.Points.{Point}
use cyglibabigail.EditScripts.Paths.{DPaths, goes_down, end_of_fr_d_path_in_k}
use cyglibabigail.EditScripts.Follow.{at, grid}
use cyglibabigail.EditScripts.Distance.{dist}
use cyglibabigail.EditScripts.Furthest.{
  Start-zero, Start-first, Start-last, Start-down, Start-right,
}
use cyglibabigail.EditScripts.Tables.{On, Entry, Landed}
use cyglibabigail.EditScripts.LandForward.{Start-Landed}

-- The diagonal of the round `t` of step `d`.
abbrev pub diagonal : ℕ → ℕ → ℤ
diagonal t d = sub_ℕ (2 * t) d

first_test : (t d : ℕ) → eqb_ℤ (diagonal t d) (pos 0 -ℤ pos d) ≡ (t == 0)
unfolding sub_ℕ ◌-ℤ◌
first_test t d = ground arith

last_test : (t d : ℕ) → eqb_ℤ (diagonal t d) (pos d) ≡ (t == d)
unfolding sub_ℕ
last_test t d = ground arith

pub goes_down_lem :
    (t d : ℕ) (v : DPaths)
    → goes_down (diagonal t d) (pos d) v ≡ (
        (t == 0) || (not (t == d) && ltb_ℤ (v (diagonal t d -ℤ pos 1)) (v (diagonal t d +ℤ pos 1))))
unfolding goes_down
goes_down_lem t d v = rw (first_test t d, last_test t d) refl

pub goes_down-suc :
    (s d : ℕ) (v : DPaths)
    → goes_down (diagonal (suc s) d) (pos d) v ≡ (
        not (suc s == d)
        && ltb_ℤ (v (diagonal (suc s) d -ℤ pos 1)) (v (diagonal (suc s) d +ℤ pos 1)))
goes_down-suc s d v =
    let e : (suc s == 0) ≡ false = ground arith in goes_down_lem (suc s) d v ∙ rw e refl

diagonal_zero : diagonal 0 0 +ℤ pos 1 ≡ pos 1
unfolding sub_ℕ ◌+ℤ◌
diagonal_zero = refl

pub diagonal_above : (t e : ℕ) → diagonal t (suc e) +ℤ pos 1 ≡ diagonal t e
diagonal_above t e =
    sub_ℕ-+ℤ (2 * t) (suc e) 1 ∙ sub_ℕ_eq (2 * t + 1) (suc e) (2 * t) e (omega arith)

pub diagonal_below : (t e : ℕ) → diagonal (suc t) (suc e) -ℤ pos 1 ≡ diagonal t e
diagonal_below t e =
    sub_ℕ--ℤ (2 * suc t) (suc e) 1 ∙ sub_ℕ_eq (2 * suc t) (suc e + 1) (2 * t) e (omega arith)

-- The ordinate beside a point of the diagonal.
y_of : (t d i j : ℕ) (z : ℤ) → On d (2 * t) i j → z ≡ at i → z -ℤ diagonal t d ≡ at j
y_of t d i j z on h =
    rw h (sub_ℕ-sub_ℕ i 1 (2 * t) d ∙ sub_ℕ_eq (i + d) (1 + 2 * t) j 1 (omega arith))

module _ (a b : ℕ) (eq : ℕ → ℕ → Bool) where
  -- The furthest point of the round `t` of step `d`, in the vector.
  abbrev pub FrEntry : DPaths → ℕ → ℕ → Type 0
  FrEntry v d t = Entry (grid a b eq) at v (diagonal t d) d d (2 * t)

  -- The edge that leads to a point, from a point one edit nearer.
  abbrev pub FrCame : ℕ → ℕ → ℕ → Point → Type 0
  FrCame zero i j begin = Unit {0}
  FrCame (suc e) i j begin =
      ((j' : ℕ) × (j ≡ suc j') × (dist (grid a b eq) i j' ≤ e) × (begin.x ≡ at i))
      ⊎ ((i' : ℕ) × (i ≡ suc i')
          × (dist (grid a b eq) i' j ≤ e)
          × (begin.x ≡ at i')
          × (begin.y ≡ at j))

  abbrev pub FrLanded : DPaths → ℕ → ℕ → Type 0
  FrLanded v d t =
      Landed (grid a b eq) at at a b true (FrCame d) v (diagonal t d) d d (2 * t)
        (end_of_fr_d_path_in_k a b eq (diagonal t d) (pos d) v)

  pub FrLanded-zero : (v : DPaths) → v (pos 1) ≡ at 0 → FrLanded v 0 0
  FrLanded-zero v h =
      Start-Landed a b eq (FrCame 0) (diagonal 0 0) (pos 0) v 0 0 0 0 0 refl refl
        (rw (goes_down_lem 0 0 v, diagonal_zero) h) tt (Start-zero (grid a b eq))

  FrLanded-first : (v : DPaths) (e : ℕ) → FrEntry v e 0 → FrLanded v (suc e) 0
  FrLanded-first v e t =
      Start-Landed a b eq (FrCame (suc e)) (diagonal 0 (suc e)) (pos (suc e)) v (suc e) (suc e) 0
        t.i (suc t.j) refl (omega (arith, t.on))
        (rw (goes_down_lem 0 (suc e) v, diagonal_above 0 e) t.held)
        (inl (t.j, refl, t.far.0, rw (goes_down_lem 0 (suc e) v, diagonal_above 0 e) t.held))
        (Start-first (grid a b eq) e t.i t.j t.far (omega (arith, t.on)))

  FrLanded-last : (v : DPaths) (e : ℕ) → FrEntry v e e → FrLanded v (suc e) (suc e)
  FrLanded-last v e t =
      let r : (suc e == suc e) ≡ true = ground arith in
      Start-Landed a b eq (FrCame (suc e)) (diagonal (suc e) (suc e)) (pos (suc e)) v (suc e)
        (suc e) (2 * suc e) (suc t.i) t.j refl (omega (arith, t.on))
        (rw (goes_down-suc e (suc e) v, r, diagonal_below e e, t.held)
          (sub_ℕ-+ℤ t.i 1 1 ∙ sub_ℕ_eq (t.i + 1) 1 (suc t.i) 1 (omega arith)))
        (inr (
          t.i,
          refl,
          t.far.0,
          rw (goes_down-suc e (suc e) v, r, diagonal_below e e) t.held,
          rw (goes_down-suc e (suc e) v, r, diagonal_below e e) (y_of e e t.i t.j _ t.on t.held),
        ))
        (Start-last (grid a b eq) e t.i t.j t.far (omega (arith, t.on)))

  FrLanded-middle :
      (v : DPaths) (e s : ℕ)
      → s < e
      → FrEntry v e (suc s)
      → FrEntry v e s
      → FrLanded v (suc e) (suc s)
  FrLanded-middle v e s h above below =
      let r : (suc s == suc e) ≡ false = ground arith in
      let c : ltb_ℤ (at below.i) (at above.i) ≡ ltb below.i above.i =
        ltb_ℤ-sub_ℕ below.i 1 above.i 1 ∙ (ground arith) in
      let test : goes_down (diagonal (suc s) (suc e)) (pos (suc e)) v ≡ ltb below.i above.i =
        goes_down-suc s (suc e) v
        ∙ rw (r, diagonal_above (suc s) e, diagonal_below s e, above.held, below.held) c in
      elim (Bool-cases (ltb below.i above.i)) [
        | inl down ↦
            Start-Landed a b eq (FrCame (suc e)) (diagonal (suc s) (suc e)) (pos (suc e)) v (suc e)
              (suc e) (2 * suc s) above.i (suc above.j) refl (omega (arith, above.on))
              (rw (test ∙ down, diagonal_above (suc s) e) above.held)
              (inl
                (above.j, refl, above.far.0, rw (test ∙ down, diagonal_above (suc s) e) above.held))
              (Start-down (grid a b eq) e above.i above.j below.i below.j above.far below.far
                (omega (arith, above.on, below.on)) (ground arith))
        | inr right ↦
            Start-Landed a b eq (FrCame (suc e)) (diagonal (suc s) (suc e)) (pos (suc e)) v (suc e)
              (suc e) (2 * suc s) (suc below.i) below.j refl (omega (arith, below.on))
              (rw (test ∙ right, diagonal_below s e, below.held)
                (sub_ℕ-+ℤ below.i 1 1 ∙ sub_ℕ_eq (below.i + 1) 1 (suc below.i) 1 (omega arith)))
              (inr (
                below.i,
                refl,
                below.far.0,
                rw (test ∙ right, diagonal_below s e) below.held,
                rw (test ∙ right, diagonal_below s e)
                    (y_of s e below.i below.j _ below.on below.held),
              ))
              (Start-right (grid a b eq) e above.i above.j below.i below.j above.far below.far
                (omega (arith, above.on, below.on)) (ground arith))
      ]

  -- `end_of_fr_d_path_in_k`, when the vector holds the furthest points of the step before.
  pub end_of_fr_d_path_in_k-Landed :
      (v : DPaths) (e t : ℕ) → t ≤ suc e → ((s : ℕ) → s ≤ e → FrEntry v e s) → FrLanded v (suc e) t
  end_of_fr_d_path_in_k-Landed v e zero h entries = FrLanded-first v e (entries 0 (omega arith))
  end_of_fr_d_path_in_k-Landed v e (suc s) h entries = elim (Bool-cases (ltb s e)) [
    | inl less ↦
        FrLanded-middle v e s (ground arith) (entries (suc s) (ground arith))
          (entries s (omega arith))
    | inr more ↦ let p : s ≡ e = ground arith in rw p (FrLanded-last v e (entries e (omega arith)))
  ]
