-- ===== src/Tests/EditScripts.antt =====
-- Runs of the edit scripts, and their properties at two words.
use cyglibabigail.Base.{
  Bool-cases, inl, inr, eqb_ℤ, ltb_ℤ, eq_of_parts, ==_iff, ℕ, ◌+◌, Bool, true, false, List, [], ◌∷◌,
  ◌≡◌, refl, arith, returned, pos, negsuc, sub_ℕ, ◌+ℤ◌, ◌-ℤ◌, codes, some,
}
use mathlib.Core.Path.{subst}
use cyglibabigail.EditScripts.Points.{
  Snake, add, snake_is_empty, add_to_snake, snake_end_points, ends_of_furthest_d_paths_overlap,
}
use cyglibabigail.EditScripts.Scripts.{
  append, count_inserted, EditScript, empty_script, script_length,
}
use cyglibabigail.EditScripts.Paths.{
  DPaths, place, vector_size, store, new_d_paths, fr_snake, frr_snake, follow_forward,
  follow_backward, goes_down, goes_left, end_of_fr_d_path_in_k, end_of_frr_d_path_in_k_plus_delta,
}
use cyglibabigail.EditScripts.Snakes.{
  forward_overlap, forward_paths, reverse_overlap, reverse_paths, middle_snake_loop,
  compute_middle_snake, last_snake, ses_len_search, ses_len_done, ses_len_diagonals, ses_len_loop,
  ses_len,
}
use cyglibabigail.EditScripts.Compute.{
  Diff, diff_with_empty, trace_points, trace_of, single_edit, join_diffs, split_diff,
  diff_with_snake, diff_of_sizes, compute_diff, compute_ses, characters, compute_lcs, same_chars,
}
use cyglibabigail.EditScripts.Distance.{dist}
use cyglibabigail.EditScripts.Follow.{grid}
use cyglibabigail.EditScripts.Ends.{FrLanded}
use cyglibabigail.EditScripts.EndsReverse.{FrrLanded}
use cyglibabigail.EditScripts.Sweep.{FrReady-start, FrReady-Landed, FrrReady-start, FrrReady-Landed}
use cyglibabigail.EditScripts.SesLen.{ses_len_lem}
use cyglibabigail.EditScripts.Middle.{Middle}
use cyglibabigail.EditScripts.MiddleSnake.{compute_middle_snake-Middle}
use cyglibabigail.EditScripts.DiffCases.{Scripted}
use cyglibabigail.EditScripts.DiffLaws.{Diffs, compute_diff-Diffs}
use cyglibabigail.EditScripts.Bounds.{InVector, Alike, end_of_fr_d_path_in_k-InVector}
use cyglibabigail.EditScripts.BoundsReverse.{end_of_frr_d_path_in_k_plus_delta-InVector}
use cyglibabigail.EditScripts.Ends.{diagonal}
use cyglibabigail.EditScripts.EndsReverse.{rev_diagonal}
use cyglibabigail.EditScripts.Strings.{compute_ses-Scripted, compute_diff-ses_len}

abbrev word : List ℕ
word = codes "abcabba"

abbrev other_word : List ℕ
other_word = codes "cbabac"

abbrev same : ℕ → ℕ → Bool
same = same_chars word other_word

compute_ses_run :
    compute_ses 14 word other_word
    ≡ returned (record {
      insertions =
          record { insertion_point_index = negsuc 0; inserted_indexes = 0 ∷ [] }
          ∷ record { insertion_point_index = pos 6; inserted_indexes = 5 ∷ [] }
          ∷ [];
      deletions = pos 0 ∷ pos 2 ∷ pos 5 ∷ [];
    })
unfolding add snake_is_empty add_to_snake snake_end_points ends_of_furthest_d_paths_overlap append
    count_inserted fr_snake frr_snake follow_forward follow_backward goes_down goes_left
    end_of_fr_d_path_in_k end_of_frr_d_path_in_k_plus_delta forward_overlap forward_paths
    reverse_overlap reverse_paths middle_snake_loop compute_middle_snake diff_with_empty
    trace_points trace_of single_edit join_diffs split_diff diff_with_snake diff_of_sizes
    compute_diff compute_ses sub_ℕ ◌+ℤ◌ ◌-ℤ◌
compute_ses_run = refl

-- The common part of two equal words, as `compute_lcs` gives it.
compute_lcs_run : compute_lcs 5 (codes "ab") (codes "ab") ≡ returned (0, [])
unfolding add snake_is_empty add_to_snake snake_end_points ends_of_furthest_d_paths_overlap append
    count_inserted fr_snake frr_snake follow_forward follow_backward goes_down goes_left
    end_of_fr_d_path_in_k end_of_frr_d_path_in_k_plus_delta forward_overlap forward_paths
    reverse_overlap reverse_paths middle_snake_loop compute_middle_snake diff_with_empty
    trace_points trace_of single_edit join_diffs split_diff diff_with_snake diff_of_sizes
    compute_diff characters compute_lcs sub_ℕ ◌+ℤ◌ ◌-ℤ◌
compute_lcs_run = refl

-- In reverse, `ses_len` of two different characters.
ses_len_reverse_run : ses_len 1 1 (same_chars (codes "a") (codes "b")) true ≡ 0
unfolding follow_backward goes_left frr_snake end_of_frr_d_path_in_k_plus_delta last_snake
    ses_len_search ses_len_done ses_len_diagonals ses_len_loop ses_len sub_ℕ ◌+ℤ◌ ◌-ℤ◌
ses_len_reverse_run = refl

ses_len_run : ses_len 7 6 same false ≡ 5
unfolding follow_forward goes_down fr_snake end_of_fr_d_path_in_k last_snake ses_len_search
    ses_len_done ses_len_diagonals ses_len_loop ses_len sub_ℕ ◌+ℤ◌ ◌-ℤ◌
ses_len_run = refl

compute_diff-Diffs_example :
    Diffs same 0 7 0 6 (compute_diff same 14 0 (0 + 7) 0 (0 + 6) [] empty_script)
compute_diff-Diffs_example = compute_diff-Diffs same 14 0 7 0 6 [] (omega arith)

compute_middle_snake-Middle_example :
    (s : Snake) × (m : ℕ) × (compute_middle_snake 7 6 same ≡ some (s, m)) × Middle 7 6 same s m
compute_middle_snake-Middle_example = compute_middle_snake-Middle 7 6 same

ses_len_lem_example : ses_len 7 6 same false ≡ dist (grid 7 6 same) 7 6
ses_len_lem_example = ses_len_lem 7 6 same

compute_ses-Scripted_example :
    (ses : EditScript) × (compute_ses 14 word other_word ≡ returned ses) × Scripted same 0 7 0 6 ses
compute_ses-Scripted_example = compute_ses-Scripted 14 word other_word (omega arith)

compute_diff-ses_len_example :
    (d : Diff) × (compute_diff same 14 0 (0 + 7) 0 (0 + 6) [] empty_script ≡ returned d)
    × (ses_len 7 6 same false ≡ script_length d.ses)
compute_diff-ses_len_example = compute_diff-ses_len same 14 7 6 (omega arith)

FrReady-Landed_example : FrLanded 7 6 same (store new_d_paths (pos 1) (negsuc 0)) 0 0
FrReady-Landed_example =
    FrReady-Landed 7 6 same (store new_d_paths (pos 1) (negsuc 0)) 0 0 (omega arith)
      (FrReady-start 7 6 same)

FrrReady-Landed_example : FrrLanded 7 6 same (store new_d_paths (sub_ℕ 7 6 +ℤ pos 1) (pos 7)) 0 0
FrrReady-Landed_example =
    FrrReady-Landed 7 6 same (store new_d_paths (sub_ℕ 7 6 +ℤ pos 1) (pos 7)) 0 0 (omega arith)
      (FrrReady-start 7 6 same)

-- A vector that holds something else beyond its size.
abbrev longer : DPaths
longer = store new_d_paths (pos 100) (pos 7)

longer-Alike : Alike 7 6 new_d_paths longer
unfolding sub_ℕ ◌+ℤ◌
longer-Alike index inside = elim (Bool-cases (eqb_ℤ index (pos 100))) [
  | inl here ↦
      let e : index ≡ pos 100 = eq_of_parts index (pos 100) ((==_iff _ _).0 here) in
      let bad : false ≡ true =
        subst (λ u. ltb_ℤ (place 7 6 u) (pos (vector_size 7 6)) ≡ true) e inside.1 in
      absurd (ground arith)
  | inr elsewhere ↦ rw elsewhere refl
]

end_of_fr_d_path_in_k-InVector_example :
    InVector 7 6 (diagonal 1 1)
    × ((end_of_fr_d_path_in_k 7 6 same (diagonal 1 1) (pos 1) new_d_paths).0
        ≡ (end_of_fr_d_path_in_k 7 6 same (diagonal 1 1) (pos 1) longer).0)
    × Alike 7 6
        (end_of_fr_d_path_in_k 7 6 same (diagonal 1 1) (pos 1) new_d_paths).1
        (end_of_fr_d_path_in_k 7 6 same (diagonal 1 1) (pos 1) longer).1
end_of_fr_d_path_in_k-InVector_example =
    end_of_fr_d_path_in_k-InVector 7 6 same new_d_paths longer 1 1 longer-Alike (omega arith)
      (omega arith)

end_of_frr_d_path_in_k_plus_delta-InVector_example :
    InVector 7 6 (rev_diagonal 7 6 1 1)
    × ((end_of_frr_d_path_in_k_plus_delta 7 6 same (diagonal 1 1) (pos 1) new_d_paths).0
        ≡ (end_of_frr_d_path_in_k_plus_delta 7 6 same (diagonal 1 1) (pos 1) longer).0)
    × Alike 7 6
        (end_of_frr_d_path_in_k_plus_delta 7 6 same (diagonal 1 1) (pos 1) new_d_paths).1
        (end_of_frr_d_path_in_k_plus_delta 7 6 same (diagonal 1 1) (pos 1) longer).1
end_of_frr_d_path_in_k_plus_delta-InVector_example =
    end_of_frr_d_path_in_k_plus_delta-InVector 7 6 same new_d_paths longer 1 1 longer-Alike
      (omega arith) (omega arith)
