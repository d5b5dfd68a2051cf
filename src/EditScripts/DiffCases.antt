-- ===== src/EditScripts/DiffCases.antt =====
-- The cases of `compute_diff` of `include/abg-diff-utils.h`, each with a shortest edit script.
use cyglibabigail.Base.{
  ℕ, zero, suc, ◌+◌, ◌-◌, ◌≤◌, Bool, true, false, ◌&&◌, ◌||◌, ltb, List, [], ◌∷◌, ◌++◌, append-nil,
  length, ◌==◌, ◌≡◌, refl, sym, ap, ◌∙◌, arith, Bool-cases, inl, inr, ℤ, pos, pos_part,
  if◌then◌else◌, sub_ℕ, sub_ℕ-+ℤ, pos_part-sub_ℕ, ◌+ℤ◌, int_laws,
}
use cyglibabigail.EditScripts.Points.{Snake, add, add_to_snake, snake_is_empty, snake_end_points}
use cyglibabigail.EditScripts.Scripts.{EditScript, empty_script, count_inserted, script_length}
use cyglibabigail.EditScripts.Distance.{dist, dist_zero, dist_zero_left, dist_same}
use cyglibabigail.EditScripts.Mirror.{dist-mirror}
use cyglibabigail.EditScripts.Follow.{at, grid, mirror_grid}
use cyglibabigail.EditScripts.Edits.{
  inserted_at, all_inserted, length-delete_all, length-indexes, Edits, done, Edits-at,
  Edits-delete_all, Edits-inserted_at, range,
}
use cyglibabigail.EditScripts.Compute.{indexes, diff_with_empty}

pub length-++ : {A : Type 0} (xs ys : List A) → length (xs ++ ys) ≡ length xs + length ys
length-++ [] ys = omega arith
length-++ (x ∷ xs) ys = omega (arith, length-++ xs ys)

module _ (eq : ℕ → ℕ → Bool) where
  -- A script for the two ranges: it says what a path does, in as many edits as are needed.
  pub record Scripted (a_begin a_size b_begin b_size : ℕ) (ses : EditScript) : Type 0 where
    pub edits :
        Edits eq a_begin b_begin
          (a_begin + a_size)
          (b_begin + b_size)
          (all_inserted ses.insertions)
          ses.deletions
    pub shortest : script_length ses ≡ dist (range eq a_begin b_begin) a_size b_size

  -- One of the ranges is empty.
  pub diff_with_empty-Scripted :
      (a_begin a_size b_begin b_size : ℕ)
      → (a_size == 0 || b_size == 0) ≡ true
      → Scripted a_begin a_size b_begin b_size
          (diff_with_empty a_begin (a_begin + a_size) a_size b_begin b_size empty_script)
  unfolding diff_with_empty all_inserted count_inserted
  diff_with_empty-Scripted a_begin zero b_begin zero h = record {
    edits = Edits-at eq (a_begin + 0) (b_begin + 0) (omega arith) (omega arith) done;
    shortest = sym (dist_zero (range eq a_begin b_begin) 0);
  }
  diff_with_empty-Scripted a_begin zero b_begin (suc n) h =
      let some_b : ltb 0 (suc n) ≡ true = ground arith in
      let e : a_begin + 0 ≡ a_begin = omega arith in
      let js = indexes (suc n) b_begin in
      rw (some_b, e)
        (record {
          edits = rw (append-nil (inserted_at (sub_ℕ a_begin 1) js)) (
              Edits-at eq (a_begin + 0) (b_begin + suc n) (sym e) refl
                (Edits-inserted_at eq (suc n) a_begin b_begin));
          shortest = omega (
            arith,
            length-indexes n (suc b_begin),
            dist_zero_left (range eq a_begin b_begin) (suc n),
          );
        })
  diff_with_empty-Scripted a_begin (suc n) b_begin zero h =
      let some_a : ltb 0 (suc n) ≡ true = ground arith in
      let e : b_begin + 0 ≡ b_begin = omega arith in
      rw some_a (record {
        edits =
            Edits-at eq (a_begin + suc n) (b_begin + 0) refl (sym e)
              (Edits-delete_all eq (suc n) a_begin b_begin);
        shortest = omega (
          arith,
          length-delete_all n (suc a_begin),
          dist_zero (range eq a_begin b_begin) (suc n),
        );
      })
  diff_with_empty-Scripted a_begin (suc n) b_begin (suc m) h = absurd (ground arith)

-- A snake that is not empty, counted from other begins.
abbrev pub shifted : ℤ → ℤ → Snake → Snake
shifted ax ay s = record {
  begin = add ax ay s.begin;
  intermediate = add ax ay s.intermediate;
  diagonal_start =
      if s.diagonal_start.is_empty then s.diagonal_start else add ax ay s.diagonal_start;
  end = add ax ay s.end;
  is_forward = s.is_forward;
}

pub add_to_snake-shifted :
    (ax ay : ℤ) (s : Snake)
    → s.intermediate.is_empty ≡ false
    → add_to_snake ax ay s ≡ shifted ax ay s
unfolding add_to_snake snake_is_empty
add_to_snake-shifted ax ay s h =
    let e : (s.begin.is_empty && s.intermediate.is_empty && s.end.is_empty) ≡ false =
      ground (arith, h) in
    rw (e, add_to_snake) refl

pub snake_end_points-shifted :
    (ax ay : ℤ) (s : Snake)
    → snake_end_points (shifted ax ay s)
      ≡ (add ax ay (snake_end_points s).0, add ax ay (snake_end_points s).1)
unfolding snake_end_points
snake_end_points-shifted ax ay s = elim (Bool-cases s.is_forward) [
  | inl h ↦ rw h refl
  | inr h ↦ rw h refl
]

-- A coordinate counted from a begin.
pub at_from : (i x : ℕ) → at i +ℤ pos x ≡ at (x + i)
at_from i x = omega int_laws

pub pos_part-at_from : (i x : ℕ) → pos_part (at i +ℤ pos x +ℤ pos 1) ≡ x + i
pos_part-at_from i x =
    rw (at_from i x, sub_ℕ-+ℤ (x + i) 1 1, pos_part-sub_ℕ (x + i + 1) 1) (omega arith)

module _ (eq : ℕ → ℕ → Bool) (a_begin a_size b_begin b_size : ℕ) where
  -- What the middle snake counts from the two begins.
  abbrev pub here : ℕ → ℕ → Bool
  here = range eq a_begin b_begin

  pub dist-grid :
      (i j : ℕ) → i ≤ a_size → j ≤ b_size → dist (grid a_size b_size here) i j ≡ dist here i j
  dist-grid i j in_a in_b = dist_same (grid a_size b_size here) here i j (λ x y p q. ground arith)

  -- The distance from a point to the ends is that of the ranges from there.
  pub dist-mirror_grid :
      (u v x y : ℕ)
      → u + x ≡ a_size
      → v + y ≡ b_size
      → dist (mirror_grid a_size b_size here) x y ≡ dist (range eq (a_begin + u) (b_begin + v)) x y
  dist-mirror_grid u v x y e f = sym (
      dist-mirror (range eq (a_begin + u) (b_begin + v)) (mirror_grid a_size b_size here) x y
        (λ i j i' j' p q.
          let inside : (ltb i' a_size && ltb j' b_size) ≡ true = ground arith in
          let g : a_begin + u + i ≡ a_begin + (a_size - suc i') = omega arith in
          let h : b_begin + v + j ≡ b_begin + (b_size - suc j') = omega arith in
          ap (λ z. eq z (b_begin + v + j)) g
          ∙ ap (eq (a_begin + (a_size - suc i'))) h
          ∙ ground arith))
