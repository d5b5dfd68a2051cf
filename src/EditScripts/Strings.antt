-- ===== src/EditScripts/Strings.antt =====
-- `compute_ses` of `src/abg-diff-utils.cc`, and the agreement of the two lengths of
-- `include/abg-diff-utils.h`.
use cyglibabigail.Base.{
  ℕ, ◌+◌, ◌<◌, Bool, false, List, [], length, ◌≡◌, refl, sym, ◌∙◌, returned, arith,
}
use cyglibabigail.EditScripts.Scripts.{EditScript, empty_script, script_length}
use cyglibabigail.EditScripts.Distance.{dist_same}
use cyglibabigail.EditScripts.Follow.{grid}
use cyglibabigail.EditScripts.Edits.{range}
use cyglibabigail.EditScripts.DiffCases.{Scripted}
use cyglibabigail.EditScripts.DiffLaws.{compute_diff-Diffs}
use cyglibabigail.EditScripts.SesLen.{ses_len_lem}
use cyglibabigail.EditScripts.Snakes.{ses_len}
use cyglibabigail.EditScripts.Compute.{Diff, compute_diff, same_chars, compute_ses}

-- `compute_ses` on two strings, with a recursion deeper than their lengths together, returns an edit
-- script of a path through all characters, with the least number of edits.
pub compute_ses-Scripted :
    (n : ℕ) (str1 str2 : List ℕ)
    → length str1 + length str2 < n
    → (ses : EditScript) × (compute_ses n str1 str2 ≡ returned ses)
      × Scripted (same_chars str1 str2) 0 (length str1) 0 (length str2) ses
unfolding compute_ses
compute_ses-Scripted n str1 str2 h =
    let p : 0 + length str1 ≡ length str1 = omega arith in
    let q : 0 + length str2 ≡ length str2 = omega arith in
    let d = compute_diff-Diffs (same_chars str1 str2) n 0 (length str1) 0 (length str2) [] h in
    let e = rw (p, q) at d.returns in (d.diff.ses, rw e refl, d.scripted)

-- The length that `ses_len` finds from the first elements is that of the script of `compute_diff`, for all
-- elements, with a recursion deeper than the sizes together.
pub compute_diff-ses_len :
    (eq : ℕ → ℕ → Bool) (n a_size b_size : ℕ)
    → a_size + b_size < n
    → (d : Diff) × (compute_diff eq n 0 (0 + a_size) 0 (0 + b_size) [] empty_script ≡ returned d)
      × (ses_len a_size b_size eq false ≡ script_length d.ses)
compute_diff-ses_len eq n a_size b_size h =
    let d = compute_diff-Diffs eq n 0 a_size 0 b_size [] h in
    let same = dist_same (grid a_size b_size eq) (range eq 0 0) a_size b_size (λ i j p q.
      let e : 0 + i ≡ i = omega arith in
      let f : 0 + j ≡ j = omega arith in rw (e, f) (ground arith)) in
    (d.diff, d.returns, ses_len_lem a_size b_size eq ∙ same ∙ sym d.scripted.shortest)
