-- ===== src/EditScripts/DiffLaws.antt =====
-- `compute_diff` of `include/abg-diff-utils.h` returns a shortest edit script.
use cyglibabigail.Base.{
  ℕ, zero, suc, ◌+◌, ◌-◌, ◌≤◌, ◌<◌, Bool, true, ◌||◌, ltb, List, ◌++◌, ◌==◌, ==_iff, ◌≡◌, refl, ap,
  ◌∙◌, arith, Bool-cases, inl, inr, pos, Outcome, returned, ◌>>=◌,
}
use cyglibabigail.EditScripts.Points.{Point, Snake, add, add_to_snake, snake_end_points}
use cyglibabigail.EditScripts.Scripts.{empty_script, append, count_inserted, script_length}
use cyglibabigail.EditScripts.Distance.{dist_bounds}
use cyglibabigail.EditScripts.Follow.{grid, mirror_grid}
use cyglibabigail.EditScripts.Middle.{Middle}
use cyglibabigail.EditScripts.MiddleSnake.{compute_middle_snake-Middle}
use cyglibabigail.EditScripts.Edits.{range}
use cyglibabigail.EditScripts.DiffCases.{
  Scripted, diff_with_empty-Scripted, dist-grid, add_to_snake-shifted, snake_end_points-shifted,
  pos_part-at_from,
}
use cyglibabigail.EditScripts.SnakeScripts.{no_edit-Scripted, single_edit-Scripted, joined-Scripted}
use cyglibabigail.EditScripts.Compute.{
  diff_with_empty, trace_of, single_edit, Diff, check_length, Call, join_diffs, split_diff,
  diff_with_snake, diff_of_sizes, compute_diff,
}

module _ (eq : ℕ → ℕ → Bool) where
  -- A call returns a script for its ranges, with its length.
  pub record Diffs (a_begin a_size b_begin b_size : ℕ) (out : Outcome Diff) : Type 0 where
    pub diff : Diff
    pub returns : out ≡ returned diff
    pub scripted : Scripted eq a_begin a_size b_begin b_size diff.ses
    pub length_of : diff.ses_len ≡ script_length diff.ses

  checked :
      (a_begin a_size b_begin b_size : ℕ) (out : Outcome Diff)
      → Diffs a_begin a_size b_begin b_size out
      → Diffs a_begin a_size b_begin b_size (out >>= check_length)
  checked a_begin a_size b_begin b_size out d =
      let t : (d.diff.ses_len == script_length d.diff.ses) ≡ true = (==_iff _ _).1 d.length_of in
      record {
        diff = d.diff;
        returns = rw (d.returns, t) refl;
        scripted = d.scripted;
        length_of = d.length_of;
      }

  module _ (diff : Call) (a_begin a_size b_begin b_size : ℕ) where
    -- The calls that are made do what they are to do.
    abbrev Recursive : Type 0
    Recursive =
        (x m y n : ℕ) (lcs : List Point)
        → m + n < a_size + b_size
        → Diffs x m y n (diff x (x + m) y (y + n) lcs empty_script)

    join_diffs-Diffs :
        Recursive
        → (s : Snake) (n : ℕ) (trace lcs : List Point)
        → (m : Middle a_size b_size (range eq a_begin b_begin) s n) → 2 ≤ n
        → Diffs a_begin a_size b_begin b_size (
            join_diffs eq diff a_begin
              (a_begin + m.i)
              (a_begin + (m.r + m.i))
              (a_begin + a_size)
              b_begin
              (b_begin + m.j)
              (b_begin + (m.r + m.j))
              (b_begin + b_size)
              trace
              n
              lcs
              empty_script)
    unfolding join_diffs
    join_diffs-Diffs rec s n trace lcs m h =
        let u = m.r + m.i in
        let v = m.r + m.j in
        let in_a = m.in_a in
        let in_b = m.in_b in
        let (some_before, some_after) = m.split h in
        let bounds = dist_bounds (grid a_size b_size (range eq a_begin b_begin)) m.i m.j in
        let bounds' =
          dist_bounds (mirror_grid a_size b_size (range eq a_begin b_begin)) (a_size - u)
            (b_size - v) in
        let x = rec a_begin m.i b_begin m.j lcs (omega (arith, m.at_after)) in
        let p : a_begin + a_size ≡ a_begin + u + (a_size - u) = omega arith in
        let q : b_begin + b_size ≡ b_begin + v + (b_size - v) = omega arith in
        let y =
          rec (a_begin + u) (a_size - u) (b_begin + v) (b_size - v) (x.diff.lcs ++ trace)
            (omega (arith, m.at_before)) in
        let next = x.diff.lcs ++ trace in
        let returns : diff (a_begin + u) (a_begin + a_size) (b_begin + v) (b_begin + b_size) next
              empty_script
            ≡ returned y.diff =
          ap (λ z. diff (a_begin + u) z (b_begin + v) (b_begin + b_size) next empty_script) p
          ∙ ap
              (λ z.
                diff (a_begin + u) (a_begin + u + (a_size - u)) (b_begin + v) z next empty_script)
              q
          ∙ y.returns in
        let (one, two, joined) =
          joined-Scripted eq a_begin a_size b_begin b_size s n m x.diff.ses y.diff.ses x.scripted
            y.scripted in
        let sum = m.sum in
        let len : (script_length x.diff.ses + script_length y.diff.ses == n) ≡ true =
          (==_iff _ n).1 (omega arith) in
        let len' : (x.diff.ses_len + y.diff.ses_len == n) ≡ true =
          (==_iff _ n).1 (omega (arith, x.length_of, y.length_of)) in
        record {
          diff = record {
            lcs = y.diff.lcs;
            ses = append (append empty_script x.diff.ses) y.diff.ses;
            ses_len = n;
          };
          returns = rw (x.returns, returns, len, len') refl;
          scripted = joined;
          length_of = omega (
            arith,
            joined.shortest,
            m.shortest,
            dist-grid eq a_begin a_size b_begin b_size a_size b_size (omega arith) (omega arith),
          );
        }

    split_diff-Diffs :
        Recursive
        → (s : Snake) (n : ℕ) (lcs : List Point)
        → Middle a_size b_size (range eq a_begin b_begin) s n
        → 2 ≤ n
        → Diffs a_begin a_size b_begin b_size (
            split_diff eq diff a_begin
              (a_begin + a_size)
              b_begin
              (b_begin + b_size)
              (add_to_snake (pos a_begin) (pos b_begin) s)
              n
              lcs
              empty_script)
    unfolding split_diff add
    split_diff-Diffs rec s n lcs m h =
        let ends =
          ap snake_end_points (add_to_snake-shifted (pos a_begin) (pos b_begin) s m.there)
          ∙ snake_end_points-shifted (pos a_begin) (pos b_begin) s
          ∙ ap (λ z. (add (pos a_begin) (pos b_begin) z.0, add (pos a_begin) (pos b_begin) z.1))
              m.ends in
        rw
          (
            ends,
            pos_part-at_from m.i a_begin,
            pos_part-at_from (m.r + m.i) a_begin,
            pos_part-at_from m.j b_begin,
            pos_part-at_from (m.r + m.j) b_begin,
          )
          (join_diffs-Diffs rec s n _ lcs m h)

    diff_with_snake-Diffs :
        Recursive
        → (s : Snake) (n : ℕ) (lcs : List Point)
        → Middle a_size b_size (range eq a_begin b_begin) s n
        → Diffs a_begin a_size b_begin b_size (
            diff_with_snake eq diff a_begin
              (a_begin + a_size)
              b_begin
              (b_begin + b_size)
              (add_to_snake (pos a_begin) (pos b_begin) s)
              n
              lcs
              empty_script)
    unfolding diff_with_snake count_inserted
    diff_with_snake-Diffs rec s n lcs m =
        let all =
          dist-grid eq a_begin a_size b_begin b_size a_size b_size (omega arith) (omega arith) in
        elim (Bool-cases (ltb 1 n)) [
          | inl more ↦ rw more (split_diff-Diffs rec s n lcs m (ground arith))
          | inr few ↦ elim (Bool-cases (n == 1)) [
            | inl one ↦
                let z : n ≡ 1 = (==_iff n 1).0 one in
                let script = single_edit-Scripted eq a_begin a_size b_begin b_size s n m z in
                rw (few, one)
                  (record {
                    diff = record {
                      lcs = lcs;
                      ses = single_edit (add_to_snake (pos a_begin) (pos b_begin) s) empty_script;
                      ses_len = n;
                    };
                    returns = refl;
                    scripted = script;
                    length_of = omega (arith, script.shortest, m.shortest);
                  })
            | inr nothing ↦
                rw (few, nothing)
                  (record {
                    diff = record {
                      lcs = lcs ++ trace_of (add_to_snake (pos a_begin) (pos b_begin) s);
                      ses = empty_script;
                      ses_len = 0;
                    };
                    returns = refl;
                    scripted =
                        no_edit-Scripted eq a_begin a_size b_begin b_size s n m (ground arith);
                    length_of = refl;
                  })
          ]
        ]

    diff_of_sizes-Diffs :
        Recursive
        → (lcs : List Point)
        → Diffs a_begin a_size b_begin b_size (
            diff_of_sizes eq diff a_begin
              (a_begin + a_size)
              a_size
              b_begin
              (b_begin + b_size)
              b_size
              lcs
              empty_script)
    unfolding diff_of_sizes
    diff_of_sizes-Diffs rec lcs =
        let (s, n, found, m) =
          compute_middle_snake-Middle a_size b_size (range eq a_begin b_begin) in
        elim (Bool-cases (a_size == 0 || b_size == 0)) [
          | inl empty ↦
              let script = diff_with_empty-Scripted eq a_begin a_size b_begin b_size empty in
              rw (empty, diff_of_sizes)
                (record {
                  diff = record {
                    lcs = lcs;
                    ses =
                        diff_with_empty a_begin (a_begin + a_size) a_size b_begin b_size
                          empty_script;
                    ses_len = a_size + b_size;
                  };
                  returns = refl;
                  scripted = script;
                  length_of = ground (
                    arith,
                    script.shortest,
                    dist_bounds (range eq a_begin b_begin) a_size b_size,
                  );
                })
          | inr full ↦
              rw (full, found, diff_of_sizes)
                (checked a_begin a_size b_begin b_size _ (diff_with_snake-Diffs rec s n lcs m))
        ]

  -- `compute_diff` on two ranges and an empty script, with a recursion deeper than the sizes together,
  -- returns, and no assertion fails. The script is that of a path through all elements of both ranges that
  -- keeps only equal ones; its length is the least number of edits, and the length that is returned.
  pub compute_diff-Diffs :
      (n a_begin a_size b_begin b_size : ℕ) (lcs : List Point)
      → a_size + b_size < n
      → Diffs a_begin a_size b_begin b_size
          (compute_diff eq n a_begin (a_begin + a_size) b_begin (b_begin + b_size) lcs empty_script)
  unfolding compute_diff
  compute_diff-Diffs zero a_begin a_size b_begin b_size lcs h = absurd (omega arith)
  compute_diff-Diffs (suc n) a_begin a_size b_begin b_size lcs h =
      let p : a_begin + a_size - a_begin ≡ a_size = omega arith in
      let q : b_begin + b_size - b_begin ≡ b_size = omega arith in
      rw (p, q)
        (diff_of_sizes-Diffs (compute_diff eq n) a_begin a_size b_begin b_size
          (λ x m y k lcs less. compute_diff-Diffs n x m y k lcs (omega arith)) lcs)
