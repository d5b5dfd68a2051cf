-- ===== src/EditScripts/Points.antt =====
-- `point` and `snake` of `include/abg-diff-utils.h`.
use cyglibabigail.Base.{
  Bool, true, false, not, ◌&&◌, if◌then◌else◌, ℤ, negsuc, ◌+ℤ◌, ◌-ℤ◌, eqb_ℤ, ltb_ℤ,
}

pub record Point : Type 0 where
  pub x : ℤ
  pub y : ℤ
  pub is_empty : Bool

-- `point::point`, of nothing and of two coordinates; `point::clear` makes the first.
abbrev pub empty_point : Point
empty_point = record { x = negsuc 0; y = negsuc 0; is_empty = true }

abbrev pub point : ℤ → ℤ → Point
point x y = record { x = x; y = y; is_empty = false }

-- `point::add`
unfoldable pub add : ℤ → ℤ → Point → Point
add ax ay p = point (p.x +ℤ ax) (p.y +ℤ ay)

-- `snake`
pub record Snake : Type 0 where
  pub begin : Point
  pub intermediate : Point
  pub diagonal_start : Point
  pub end : Point
  pub is_forward : Bool

abbrev pub empty_snake : Snake
empty_snake = record {
  begin = empty_point;
  intermediate = empty_point;
  diagonal_start = empty_point;
  end = empty_point;
  is_forward = false;
}

unfoldable pub snake_is_empty : Snake → Bool
snake_is_empty s = s.begin.is_empty && s.intermediate.is_empty && s.end.is_empty

-- `snake::add`
unfoldable pub add_to_snake : ℤ → ℤ → Snake → Snake
unfolding add snake_is_empty
add_to_snake ax ay s = if snake_is_empty s then s else record s {
  begin = add ax ay s.begin;
  intermediate = add ax ay s.intermediate;
  diagonal_start =
      if s.diagonal_start.is_empty then s.diagonal_start else add ax ay s.diagonal_start;
  end = add ax ay s.end;
}

abbrev pub has_diagonal_edge : Snake → Bool
has_diagonal_edge s = not s.diagonal_start.is_empty

abbrev pub has_horizontal_edge : Snake → Bool
has_horizontal_edge s = eqb_ℤ s.begin.y s.intermediate.y

abbrev pub has_vertical_edge : Snake → Bool
has_vertical_edge s = eqb_ℤ s.begin.x s.intermediate.x

-- `snake_end_points`, where it returns true
unfoldable pub snake_end_points : Snake → Point × Point
snake_end_points s = if s.is_forward then (s.intermediate, s.end) else (s.end, s.intermediate)

-- `ends_of_furthest_d_paths_overlap`
unfoldable pub ends_of_furthest_d_paths_overlap : Point → Point → Bool
ends_of_furthest_d_paths_overlap f r = eqb_ℤ (f.x -ℤ f.y) (r.x -ℤ r.y) && not (ltb_ℤ f.x r.x)
