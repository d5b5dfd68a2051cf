-- ===== src/EditScripts/SnakeScripts.antt =====
-- What `compute_diff` of `include/abg-diff-utils.h` does with a middle snake, by the number of edits: each
-- case gives a shortest edit script.
use cyglibabigail.Base.{
  ℕ, zero, suc, ◌+◌, ◌-◌, ◌≤◌, Bool, true, false, [], ◌∷◌, ◌≡◌, ◌∙◌, arith, inl, inr, pos, pos_part,
  pos_part-sub_ℕ, ◌+ℤ◌, eqb_ℤ, eqb_ℤ-sub_ℕ, int_laws,
}
use mathlib.Core.Path.{subst}
use cyglibabigail.EditScripts.Points.{Snake, add, add_to_snake}
use cyglibabigail.EditScripts.Scripts.{
  EditScript, empty_script, append, count_inserted, script_length,
}
use cyglibabigail.EditScripts.Distance.{dist, dist_bounds}
use cyglibabigail.EditScripts.Follow.{Run, at, grid}
use cyglibabigail.EditScripts.Middle.{Middle}
use cyglibabigail.EditScripts.Edits.{
  all_inserted, all_inserted-++, count_inserted-++, Edits, delete, insert, Edits-++, Edits-at,
  Edits-Run, Edits-zero, range,
}
use cyglibabigail.EditScripts.Compute.{insert_at, single_edit}
use cyglibabigail.EditScripts.DiffCases.{
  Scripted, dist-grid, dist-mirror_grid, add_to_snake-shifted, at_from, length-++,
}

module _ (eq : ℕ → ℕ → Bool) (a_begin a_size b_begin b_size : ℕ) (s : Snake) (n : ℕ)
    (m : Middle a_size b_size (range eq a_begin b_begin) s n) where
  -- No edit: the ranges are equal.
  pub no_edit-Scripted : n ≡ 0 → Scripted eq a_begin a_size b_begin b_size empty_script
  unfolding all_inserted count_inserted
  no_edit-Scripted z =
      let same =
        dist-grid eq a_begin a_size b_begin b_size a_size b_size (omega arith) (omega arith) in
      record {
        edits = Edits-zero eq a_begin b_begin a_size b_size (omega (arith, m.shortest));
        shortest = omega (arith, m.shortest);
      }

  -- The matches of the snake are kept.
  Run-here :
      (i j r : ℕ)
      → Run (grid a_size b_size (range eq a_begin b_begin)) i j r
      → Run (range eq a_begin b_begin) i j r
  Run-here i j zero h = tt
  Run-here i j (suc r) h = (ground arith, Run-here (suc i) (suc j) r h.1)

  pub snake-Edits :
      Edits eq (a_begin + m.i) (b_begin + m.j) (a_begin + (m.r + m.i)) (b_begin + (m.r + m.j)) [] []
  snake-Edits = Edits-Run eq a_begin b_begin m.i m.j m.r (Run-here m.i m.j m.r m.run)

  rest-Edits :
      m.after ≡ 0
      → Edits eq (a_begin + m.i) (b_begin + m.j) (a_begin + a_size) (b_begin + b_size) [] []
  rest-Edits z =
      let u = m.r + m.i in
      let v = m.r + m.j in
      let x = a_size - u in
      let y = b_size - v in
      let in_a = m.in_a in
      let in_b = m.in_b in
      let whole =
        dist-mirror_grid eq a_begin a_size b_begin b_size u v x y (omega arith) (omega arith) in
      Edits-++ eq snake-Edits (
        Edits-at eq (a_begin + a_size) (b_begin + b_size) (omega arith) (omega arith)
          (Edits-zero eq (a_begin + u) (b_begin + v) x y (omega (arith, m.at_after))))

  -- One edit: what comes before it and after it is kept.
  inserted-Scripted :
      (j' : ℕ)
      → n ≡ 1
      → m.j ≡ suc j'
      → dist (grid a_size b_size (range eq a_begin b_begin)) m.i j' ≤ 0
      → Scripted eq a_begin a_size b_begin b_size
          (insert_at (at (a_begin + m.i)) ((b_begin + j') ∷ []) empty_script)
  unfolding all_inserted count_inserted
  inserted-Scripted j' z e near =
      let in_a = m.in_a in
      let in_b = m.in_b in
      let same =
        dist-grid eq a_begin a_size b_begin b_size a_size b_size (omega arith) (omega arith) in
      let same' = dist-grid eq a_begin a_size b_begin b_size m.i j' (omega arith) (omega arith) in
      let bounds = dist_bounds (grid a_size b_size (range eq a_begin b_begin)) m.i j' in
      let bounds' = dist_bounds (grid a_size b_size (range eq a_begin b_begin)) m.i m.j in
      let next : b_begin + m.j ≡ suc (b_begin + j') = omega arith in
      let rest =
        subst (λ u. Edits eq (a_begin + m.i) u (a_begin + a_size) (b_begin + b_size) [] []) next
          (rest-Edits (omega (arith, m.sum, m.at_before))) in
      record {
        edits = Edits-++ eq (Edits-zero eq a_begin b_begin m.i j' (omega arith)) (insert rest);
        shortest = omega (arith, m.shortest);
      }

  deleted-Scripted :
      (i' : ℕ)
      → n ≡ 1
      → m.i ≡ suc i'
      → dist (grid a_size b_size (range eq a_begin b_begin)) i' m.j ≤ 0
      → Scripted eq a_begin a_size b_begin b_size
          (record { insertions = []; deletions = pos (a_begin + i') ∷ [] })
  unfolding all_inserted count_inserted
  deleted-Scripted i' z e near =
      let in_a = m.in_a in
      let in_b = m.in_b in
      let same =
        dist-grid eq a_begin a_size b_begin b_size a_size b_size (omega arith) (omega arith) in
      let same' = dist-grid eq a_begin a_size b_begin b_size i' m.j (omega arith) (omega arith) in
      let bounds = dist_bounds (grid a_size b_size (range eq a_begin b_begin)) i' m.j in
      let bounds' = dist_bounds (grid a_size b_size (range eq a_begin b_begin)) m.i m.j in
      let next : a_begin + m.i ≡ suc (a_begin + i') = omega arith in
      let rest =
        subst (λ u. Edits eq u (b_begin + m.j) (a_begin + a_size) (b_begin + b_size) [] []) next
          (rest-Edits (omega (arith, m.sum, m.at_before))) in
      record {
        edits = Edits-++ eq (Edits-zero eq a_begin b_begin i' m.j (omega arith)) (delete rest);
        shortest = omega (arith, m.shortest);
      }

  pub single_edit-Scripted :
      n ≡ 1
      → Scripted eq a_begin a_size b_begin b_size
          (single_edit (add_to_snake (pos a_begin) (pos b_begin) s) empty_script)
  unfolding single_edit add
  single_edit-Scripted z =
      let (fwd, mid, came) = m.edge z in
      rw (add_to_snake-shifted (pos a_begin) (pos b_begin) s m.there, fwd, mid)
        (elim came [
          | inl (j', e, near, x) ↦
              let t : eqb_ℤ (s.begin.x +ℤ pos a_begin) (at m.i +ℤ pos a_begin) ≡ true =
                rw x (ground arith) in
              let p : pos_part (at m.j +ℤ pos b_begin) ≡ b_begin + j' =
                rw (at_from m.j b_begin, pos_part-sub_ℕ (b_begin + m.j) 1) (omega arith) in
              rw (t, p, at_from m.i a_begin) (inserted-Scripted j' z e near)
          | inr (i', e, near, x, y) ↦
              let t : eqb_ℤ (s.begin.x +ℤ pos a_begin) (at m.i +ℤ pos a_begin) ≡ false =
                rw (x, e, at_from i' a_begin, at_from (suc i') a_begin)
                  (eqb_ℤ-sub_ℕ (a_begin + i') 1 (a_begin + suc i') 1 ∙ ground arith) in
              let t' : eqb_ℤ (s.begin.y +ℤ pos b_begin) (at m.j +ℤ pos b_begin) ≡ true =
                rw y (ground arith) in
              let p : at m.i +ℤ pos a_begin ≡ pos (a_begin + i') = rw e (omega int_laws) in
              rw (t, t', p) (deleted-Scripted i' z e near)
        ])

  -- More edits: a script for what is before the snake, and one for what is after it.
  pub joined-Scripted :
      (first second : EditScript)
      → Scripted eq a_begin m.i b_begin m.j first
      → Scripted eq
          (a_begin + (m.r + m.i))
          (a_size - (m.r + m.i))
          (b_begin + (m.r + m.j))
          (b_size - (m.r + m.j))
          second
      → (script_length first ≡ m.before)
        × (script_length second ≡ m.after)
        × Scripted eq a_begin a_size b_begin b_size (append (append empty_script first) second)
  unfolding append
  joined-Scripted first second f g =
      let in_a = m.in_a in
      let in_b = m.in_b in
      let one = dist-grid eq a_begin a_size b_begin b_size m.i m.j (omega arith) (omega arith) in
      let two =
        dist-mirror_grid eq a_begin a_size b_begin b_size (m.r + m.i) (m.r + m.j)
          (a_size - (m.r + m.i)) (b_size - (m.r + m.j)) (omega arith) (omega arith) in
      let all =
        dist-grid eq a_begin a_size b_begin b_size a_size b_size (omega arith) (omega arith) in
      let inserted = count_inserted-++ first.insertions second.insertions in
      let deleted = length-++ first.deletions second.deletions in
      let p : script_length first ≡ m.before = omega (arith, f.shortest, m.at_before) in
      let q : script_length second ≡ m.after = omega (arith, g.shortest, m.at_after) in
      (
        p,
        q,
        record {
          edits = rw (all_inserted-++ first.insertions second.insertions) (
              Edits-++ eq f.edits (
                Edits-++ eq snake-Edits (
                  Edits-at eq (a_begin + a_size) (b_begin + b_size) (omega arith) (omega arith)
                    g.edits)));
          shortest = omega (arith, m.sum, m.shortest);
        },
      )
