-- ===== src/EditScripts/Paths.antt =====
-- `d_path_vec` and the two searches for the end of a furthest reaching path on a diagonal, of
-- `include/abg-diff-utils.h`.
use cyglibabigail.Base.{
  ℕ, zero, suc, ◌+◌, ◌*◌, Bool, true, false, not, ◌&&◌, ◌||◌, Option, none, some, if◌then◌else◌, ℤ,
  pos, negsuc, pos_part, neg_part, sub_ℕ, ◌+ℤ◌, ◌-ℤ◌, eqb_ℤ, ltb_ℤ, leb_ℤ,
}
use cyglibabigail.EditScripts.Points.{Point, empty_point, point, Snake}

-- The elements of a `d_path_vec`, by the index that `operator[]` is given.
abbrev pub DPaths : Type 0
DPaths = ℤ → ℤ

abbrev pub store : DPaths → ℤ → ℤ → DPaths
store v k x j = if eqb_ℤ j k then x else v j

-- A new one holds zeros.
abbrev pub new_d_paths : DPaths
new_d_paths j = pos 0

-- `d_path_vec::max_d`, `d_path_vec::offset`, the size that the constructor gives, and the place of
-- an index in the underlying vector.
abbrev pub max_d : ℕ → ℕ → ℕ
max_d a_size b_size = a_size + b_size

abbrev pub offset : ℕ → ℕ → ℕ
offset a_size b_size =
    let delta = sub_ℕ a_size b_size in max_d a_size b_size + (pos_part delta + neg_part delta)

abbrev pub vector_size : ℕ → ℕ → ℕ
vector_size a_size b_size = 2 * (a_size + b_size + 1 + (a_size + b_size)) + 1

abbrev pub place : ℕ → ℕ → ℤ → ℤ
place a_size b_size index = index +ℤ pos (offset a_size b_size)

-- Where a walk along a diagonal has come, and the end of its first edge.
pub record Walk : Type 0 where
  pub x : ℤ
  pub y : ℤ
  pub diag_start : Point

abbrev pub start_diagonal : Point → ℤ → ℤ → Point
start_diagonal d x y = if d.is_empty then point x y else d

-- The first test of `end_of_fr_d_path_in_k`: to go down from the diagonal above.
unfoldable pub goes_down : ℤ → ℤ → DPaths → Bool
goes_down k d v =
    eqb_ℤ k (pos 0 -ℤ d) || (not (eqb_ℤ k d) && ltb_ℤ (v (k -ℤ pos 1)) (v (k +ℤ pos 1)))

-- The begin point, and the abscissa of the intermediate point.
abbrev pub fr_begin : ℤ → DPaths → Bool → Point × ℤ
fr_begin k v down =
    let above = v (k +ℤ pos 1) in
    let below = v (k -ℤ pos 1) in
    if down
    then (point above (above -ℤ (k +ℤ pos 1)), above)
    else (point below (below -ℤ (k -ℤ pos 1)), below +ℤ pos 1)

-- The first test of `end_of_frr_d_path_in_k_plus_delta`: to go left from the diagonal above.
unfoldable pub goes_left : ℤ → ℤ → ℤ → DPaths → Bool
goes_left k_plus_delta d delta v =
    eqb_ℤ k_plus_delta (pos 0 -ℤ d +ℤ delta)
    || (not (eqb_ℤ k_plus_delta (d +ℤ delta))
        && leb_ℤ (v (k_plus_delta +ℤ pos 1)) (v (k_plus_delta -ℤ pos 1)))

-- The begin point and the intermediate point.
abbrev pub frr_begin : ℤ → DPaths → Bool → Point × ℤ × ℤ
frr_begin k_plus_delta v left =
    let above = v (k_plus_delta +ℤ pos 1) in
    let y_above = above -ℤ (k_plus_delta +ℤ pos 1) in
    let below = v (k_plus_delta -ℤ pos 1) in
    let y_below = below -ℤ (k_plus_delta -ℤ pos 1) in
    if left
    then (point above y_above, above -ℤ pos 1, y_above)
    else (point below y_below, below, y_below -ℤ pos 1)

-- The snake that a walk from the intermediate point at `x` and `y` makes.
abbrev pub snake_of : Point → ℤ → ℤ → Walk → Bool → Snake
snake_of begin x y w forward = record {
  begin = begin;
  intermediate = point x y;
  diagonal_start = w.diag_start;
  end = point w.x w.y;
  is_forward = forward;
}

-- The snake, unless its end is outside.
unfoldable pub frr_snake : Point → ℤ → ℤ → Walk → Option Snake
frr_snake begin x y w =
    let inside =
      (eqb_ℤ w.x (negsuc 0) && eqb_ℤ w.y (negsuc 0))
      || not (ltb_ℤ w.x (negsuc 0) || ltb_ℤ w.y (negsuc 0)) in
    if inside then some (snake_of begin x y w false) else none

-- The sequences are given by their sizes, and `eq` tells whether the element `i` of the first equals
-- the element `j` of the second.
module _ (a_size b_size : ℕ) (eq : ℕ → ℕ → Bool) where
  -- The loop `while ((x < last_x_index) && (y < last_y_index))`; it has at most `n` rounds, `x`
  -- being `n` before `last_x_index`.
  unfoldable pub follow_forward : ℕ → Walk → Walk
  follow_forward zero w = w
  follow_forward (suc n) w =
      let x = w.x +ℤ pos 1 in
      let y = w.y +ℤ pos 1 in
      elim (ltb_ℤ w.x (sub_ℕ a_size 1)
        && ltb_ℤ w.y (sub_ℕ b_size 1)
        && eq (pos_part x) (pos_part y)) [
          | false ↦ w
          | true ↦
              follow_forward n
                (record { x = x; y = y; diag_start = start_diagonal w.diag_start x y })
        ]

  -- The loop `while (x >= 0 && y >= 0)`, with at most `x + 1` rounds.
  unfoldable pub follow_backward : ℕ → Walk → Walk
  follow_backward zero w = w
  follow_backward (suc n) w =
      elim (not (ltb_ℤ w.x (pos 0))
        && not (ltb_ℤ w.y (pos 0))
        && eq (pos_part w.x) (pos_part w.y)) [
          | false ↦ w
          | true ↦ follow_backward n (record {
            x = w.x -ℤ pos 1;
            y = w.y -ℤ pos 1;
            diag_start = start_diagonal w.diag_start w.x w.y;
          })
        ]

  -- The snake, unless its end is outside.
  unfoldable pub fr_snake : Point → ℤ → ℤ → Walk → Option Snake
  fr_snake begin x y w =
      let outside =
        leb_ℤ (pos a_size) w.x
        || leb_ℤ (pos b_size) w.y
        || ltb_ℤ w.x (negsuc 0)
        || ltb_ℤ w.y (negsuc 0) in
      if outside then none else some (snake_of begin x y w true)

  -- `end_of_fr_d_path_in_k`: the snake, where it returns true, and the vector.
  unfoldable pub end_of_fr_d_path_in_k : ℤ → ℤ → DPaths → Option Snake × DPaths
  end_of_fr_d_path_in_k k d v =
      let (begin, x) = fr_begin k v (goes_down k d v) in
      let y = x -ℤ k in
      let w =
        follow_forward (pos_part (sub_ℕ a_size 1 -ℤ x))
          (record { x = x; y = y; diag_start = empty_point }) in
      (fr_snake begin x y w, store v k w.x)

  -- `end_of_frr_d_path_in_k_plus_delta`
  unfoldable pub end_of_frr_d_path_in_k_plus_delta : ℤ → ℤ → DPaths → Option Snake × DPaths
  end_of_frr_d_path_in_k_plus_delta k d v =
      let delta = sub_ℕ a_size b_size in
      let k_plus_delta = k +ℤ delta in
      let (begin, x, y) = frr_begin k_plus_delta v (goes_left k_plus_delta d delta v) in
      let w =
        follow_backward (pos_part (x +ℤ pos 1))
          (record { x = x; y = y; diag_start = empty_point }) in
      (frr_snake begin x y w, store v k_plus_delta w.x)
