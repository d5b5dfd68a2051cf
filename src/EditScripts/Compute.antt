-- ===== src/EditScripts/Compute.antt =====
-- `compute_diff` of `include/abg-diff-utils.h`, and `compute_lcs` and `compute_ses` of
-- `src/abg-diff-utils.cc`.
use cyglibabigail.Base.{
  ℕ, zero, suc, ◌+◌, ◌-◌, Bool, true, false, ◌&&◌, ◌||◌, List, [], ◌∷◌, ◌++◌, none, some, ◌==◌, ltb,
  if◌then◌else◌, Outcome, returned, aborted, out_of_fuel, ◌>>=◌, length, get_elem?, ℤ, pos,
  pos_part, sub_ℕ, ◌+ℤ◌, ◌-ℤ◌, leb_ℤ,
}
use cyglibabigail.EditScripts.Points.{
  Point, point, Snake, add_to_snake, has_diagonal_edge, has_horizontal_edge, has_vertical_edge,
  snake_end_points,
}
use cyglibabigail.EditScripts.Scripts.{EditScript, empty_script, append, script_length}
use cyglibabigail.EditScripts.Snakes.{compute_middle_snake}

-- The `n` indexes from `i`.
abbrev pub indexes : ℕ → ℕ → List ℕ
indexes zero i = []
indexes (suc n) i = i ∷ indexes n (suc i)

abbrev pub delete_all : ℕ → ℕ → List ℤ
delete_all zero i = []
delete_all (suc n) i = pos i ∷ delete_all n (suc i)

abbrev pub delete_range : ℕ → ℕ → EditScript → EditScript
delete_range i n ses = record ses { deletions = ses.deletions ++ delete_all n i }

abbrev pub insert_at : ℤ → List ℕ → EditScript → EditScript
insert_at i js ses = record ses {
  insertions = ses.insertions ++ record { insertion_point_index = i; inserted_indexes = js } ∷ [];
}

-- The first case: one of the ranges is empty. `a_end` is the end of the first.
unfoldable pub diff_with_empty : ℕ → ℕ → ℕ → ℕ → ℕ → EditScript → EditScript
diff_with_empty a_begin a_end a_size b_begin b_size ses =
    let deleted = if ltb 0 a_size && b_size == 0 then delete_range a_begin a_size ses else ses in
    if ltb 0 b_size && a_size == 0
    then insert_at (sub_ℕ a_end 1) (indexes b_size b_begin) deleted
    else deleted

-- The loop that pushes the points of a snake's diagonal, in at most `n` rounds.
unfoldable pub trace_points : ℕ → ℤ → ℤ → Point → List Point
trace_points zero x y end = []
trace_points (suc n) x y end = elim (leb_ℤ x end.x && leb_ℤ y end.y) [
  | false ↦ []
  | true ↦ point x y ∷ trace_points n (x +ℤ pos 1) (y +ℤ pos 1) end
]

unfoldable pub trace_of : Snake → List Point
trace_of s =
    let start = s.diagonal_start in
    if has_diagonal_edge s
    then trace_points (pos_part (s.end.x +ℤ pos 1 -ℤ start.x)) start.x start.y s.end
    else []

-- The case `d == 1`. (The trace is pushed once more there, and not read.)
unfoldable pub single_edit : Snake → EditScript → EditScript
single_edit s ses =
    let i = s.intermediate in
    if has_vertical_edge s
    then insert_at i.x (pos_part i.y ∷ []) ses
    else if has_horizontal_edge s
    then record ses { deletions = ses.deletions ++ (if s.is_forward then i.x else s.begin.x) ∷ [] }
    else ses

-- The case where `compute_middle_snake` returns false.
abbrev pub diff_without_snake : ℕ → ℕ → ℕ → ℕ → EditScript → EditScript
diff_without_snake a_begin a_size b_begin b_size ses =
    insert_at (pos a_begin) (indexes b_size b_begin) (delete_range a_begin a_size ses)

-- What a call sets: the sequence of points, the script and its length.
pub record Diff : Type 0 where
  pub lcs : List Point
  pub ses : EditScript
  pub ses_len : ℕ

-- `assert(ses_len == ses.length())`
abbrev pub check_length : Diff → Outcome Diff
check_length d = if d.ses_len == script_length d.ses then returned d else aborted

-- A call of `compute_diff` on two ranges, with the points so far and a script to add to.
abbrev pub Call : Type 0
Call = (a_begin a_end b_begin b_end : ℕ) → List Point → EditScript → Outcome Diff

module _ (eq : ℕ → ℕ → Bool) where
  -- The two recursive calls of the case `d > 1`, up to the points `a_mid` and `b_mid` and from
  -- `a_next` and `b_next`, with the trace between them.
  unfoldable pub join_diffs :
      Call
      → (a_begin a_mid a_next a_end b_begin b_mid b_next b_end : ℕ) → List Point
      → ℕ
      → List Point
      → EditScript
      → Outcome Diff
  join_diffs diff a_begin a_mid a_next a_end b_begin b_mid b_next b_end trace d lcs ses = do
    first ← diff a_begin a_mid b_begin b_mid lcs empty_script
    second ← diff a_next a_end b_next b_end (first.lcs ++ trace) empty_script
    if script_length first.ses + script_length second.ses == d
          && first.ses_len + second.ses_len == d
        then returned (record {
          lcs = second.lcs;
          ses = append (append ses first.ses) second.ses;
          ses_len = d;
        })
        else aborted

  -- The case `d > 1`, given the recursive call.
  unfoldable pub split_diff :
      Call → (a_begin a_end b_begin b_end : ℕ) → Snake → ℕ → List Point → EditScript → Outcome Diff
  split_diff diff a_begin a_end b_begin b_end snak d lcs ses =
      let (px, pu) = snake_end_points snak in
      join_diffs diff a_begin (pos_part (px.x +ℤ pos 1)) (pos_part (pu.x +ℤ pos 1)) a_end b_begin
        (pos_part (px.y +ℤ pos 1)) (pos_part (pu.y +ℤ pos 1)) b_end (trace_of snak) d lcs ses

  -- What is done with a middle snake, whose points count from the two bases.
  unfoldable pub diff_with_snake :
      Call → (a_begin a_end b_begin b_end : ℕ) → Snake → ℕ → List Point → EditScript → Outcome Diff
  diff_with_snake diff a_begin a_end b_begin b_end snak d lcs ses =
      if ltb 1 d
      then split_diff diff a_begin a_end b_begin b_end snak d lcs ses
      else if d == 1
      then returned (record { lcs = lcs; ses = single_edit snak ses; ses_len = d })
      else returned (record { lcs = lcs ++ trace_of snak; ses = ses; ses_len = 0 })

  -- `compute_diff` on two ranges with their sizes, given the recursive call.
  unfoldable pub diff_of_sizes :
      Call
      → (a_begin a_end a_size b_begin b_end b_size : ℕ) → List Point
      → EditScript
      → Outcome Diff
  diff_of_sizes diff a_begin a_end a_size b_begin b_end b_size lcs ses =
      elim (a_size == 0 || b_size == 0) [
        | true ↦ returned (record {
          lcs = lcs;
          ses = diff_with_empty a_begin a_end a_size b_begin b_size ses;
          ses_len = a_size + b_size;
        })
        | false ↦
            elim (compute_middle_snake a_size b_size (λ i j. eq (a_begin + i) (b_begin + j))) [
              | none ↦ check_length (record {
                lcs = lcs;
                ses = diff_without_snake a_begin a_size b_begin b_size ses;
                ses_len = a_size + b_size;
              })
              | some (snak, d) ↦
                  diff_with_snake diff a_begin a_end b_begin b_end
                    (add_to_snake (pos a_begin) (pos b_begin) snak) d lcs ses
                  >>= check_length
            ]
      ]

  -- `compute_diff` on the elements from `a_begin` to `a_end` and from `b_begin` to `b_end`.
  unfoldable pub compute_diff : ℕ → Call
  compute_diff zero a_begin a_end b_begin b_end lcs ses = out_of_fuel
  compute_diff (suc n) a_begin a_end b_begin b_end lcs ses =
      diff_of_sizes (compute_diff n) a_begin a_end (a_end - a_begin) b_begin b_end (b_end - b_begin)
        lcs ses

-- The strings are lists of characters; `str1[i] == str2[j]`.
abbrev pub same_chars : List ℕ → List ℕ → ℕ → ℕ → Bool
same_chars str1 str2 i j = elim (get_elem? str1 i) [
  | none ↦ false
  | some c ↦ elim (get_elem? str2 j) [ none ↦ false | some d ↦ c == d ]
]

unfoldable pub compute_ses : ℕ → List ℕ → List ℕ → Outcome EditScript
compute_ses n str1 str2 = do
  d ← compute_diff (same_chars str1 str2) n 0 (length str1) 0 (length str2) [] empty_script
  returned d.ses

-- The loop of `compute_lcs` over the points.
unfoldable pub characters : List ℕ → List ℕ → List Point → Outcome (List ℕ)
characters str1 str2 [] = returned []
characters str1 str2 (p ∷ ps) = elim (get_elem? str1 (pos_part p.x)) [
  | none ↦ aborted
  | some c ↦
      if same_chars str1 str2 (pos_part p.x) (pos_part p.y)
      then (do cs ← characters str1 str2 ps; returned (c ∷ cs))
      else aborted
]

-- `compute_lcs`: the length of the script, and the characters.
unfoldable pub compute_lcs : ℕ → List ℕ → List ℕ → Outcome (ℕ × List ℕ)
compute_lcs n str1 str2 = do
  d ← compute_diff (same_chars str1 str2) n 0 (length str1) 0 (length str2) [] empty_script
  cs ← characters str1 str2 d.lcs
  returned (script_length d.ses, cs)
