-- ===== src/EditScripts/Snakes.antt =====
-- `compute_middle_snake` and `ses_len` of `include/abg-diff-utils.h`.
use cyglibabigail.Base.{
  ℕ, zero, suc, ◌+◌, ◌-◌, ◌*◌, ◌/◌, ◌%◌, Bool, true, false, not, ◌&&◌, Option, none, some, ◌==◌,
  if◌then◌else◌, ℤ, pos, negsuc, pos_part, neg_part, sub_ℕ, ◌+ℤ◌, ◌-ℤ◌, eqb_ℤ, leb_ℤ,
}
use cyglibabigail.EditScripts.Points.{
  Point, point, Snake, empty_snake, ends_of_furthest_d_paths_overlap,
}
use cyglibabigail.EditScripts.Paths.{
  DPaths, store, new_d_paths, end_of_fr_d_path_in_k, end_of_frr_d_path_in_k_plus_delta,
}

-- `delta % 2`
abbrev pub is_odd : ℤ → Bool
is_odd k = (pos_part k + neg_part k) % 2 == 1

-- A point on the diagonal `k`.
abbrev pub point_on : ℤ → ℤ → Point
point_on x k = point x (x -ℤ k)

-- What a loop over the diagonals leaves: the snake and the length of the script, where paths
-- overlap, and the vector that it has changed.
abbrev pub Search : Type 0
Search = Option (Snake × ℕ) × DPaths

-- A search that returns false leaves the snake as it was.
unfoldable pub last_snake : Option Snake → Snake → Snake
last_snake none snak = snak
last_snake (some s) snak = s

module _ (a_size b_size : ℕ) (eq : ℕ → ℕ → Bool) where
  abbrev pub delta_of : ℤ
  delta_of = sub_ℕ a_size b_size

  -- The test on a forward snake.
  unfoldable pub forward_overlap : ℕ → ℤ → DPaths → Snake → Bool
  forward_overlap d k reverse_d_paths s =
      is_odd delta_of
      && (leb_ℤ (delta_of -ℤ (pos d -ℤ pos 1)) k && leb_ℤ k (delta_of +ℤ (pos d -ℤ pos 1)))
      && ends_of_furthest_d_paths_overlap s.end (point_on (reverse_d_paths k) k)

  -- The loop over forward paths, in `n` rounds from the diagonal `k`.
  unfoldable pub forward_paths : ℕ → ℕ → ℤ → DPaths → DPaths → Search
  forward_paths zero d k forward_d_paths reverse_d_paths = (none, forward_d_paths)
  forward_paths (suc n) d k forward_d_paths reverse_d_paths =
      let (found, v) = end_of_fr_d_path_in_k a_size b_size eq k (pos d) forward_d_paths in
      elim found [
        | none ↦ forward_paths n d (k +ℤ pos 2) v reverse_d_paths
        | some s ↦ elim (forward_overlap d k reverse_d_paths s) [
          | true ↦ (some (s, 2 * d - 1), v)
          | false ↦ forward_paths n d (k +ℤ pos 2) v reverse_d_paths
        ]
      ]

  -- The test on a reverse snake.
  unfoldable pub reverse_overlap : ℕ → ℤ → DPaths → Snake → Bool
  reverse_overlap d k forward_d_paths s =
      let k_plus_delta = k +ℤ delta_of in
      not (is_odd delta_of)
      && (leb_ℤ (pos 0 -ℤ pos d) k_plus_delta && leb_ℤ k_plus_delta (pos d))
      && ends_of_furthest_d_paths_overlap (point_on (forward_d_paths k_plus_delta) k_plus_delta)
          s.end

  unfoldable pub reverse_paths : ℕ → ℕ → ℤ → DPaths → DPaths → Search
  reverse_paths zero d k forward_d_paths reverse_d_paths = (none, reverse_d_paths)
  reverse_paths (suc n) d k forward_d_paths reverse_d_paths =
      let (found, v) =
        end_of_frr_d_path_in_k_plus_delta a_size b_size eq k (pos d) reverse_d_paths in
      elim found [
        | none ↦ reverse_paths n d (k +ℤ pos 2) forward_d_paths v
        | some s ↦ elim (reverse_overlap d k forward_d_paths s) [
          | true ↦ (some (s, 2 * d), v)
          | false ↦ reverse_paths n d (k +ℤ pos 2) forward_d_paths v
        ]
      ]

  -- The loop over `d`, in `n` rounds.
  unfoldable pub middle_snake_loop : ℕ → ℕ → DPaths → DPaths → Option (Snake × ℕ)
  middle_snake_loop zero d forward_d_paths reverse_d_paths = none
  middle_snake_loop (suc n) d forward_d_paths reverse_d_paths =
      let k = pos 0 -ℤ pos d in
      let (f, fv) = forward_paths (suc d) d k forward_d_paths reverse_d_paths in
      elim f [
        | some result ↦ some result
        | none ↦
            let (r, rv) = reverse_paths (suc d) d k fv reverse_d_paths in
            elim r [ some result ↦ some result | none ↦ middle_snake_loop n (suc d) fv rv ]
      ]

  -- `compute_middle_snake`: the snake and the length of the script, where it returns true.
  unfoldable pub compute_middle_snake : Option (Snake × ℕ)
  compute_middle_snake =
      let d_max = (b_size + a_size) / 2 + 1 in
      middle_snake_loop (suc d_max) 0 (store new_d_paths (pos 1) (negsuc 0))
        (store new_d_paths (delta_of +ℤ pos 1) (pos a_size))

  -- The search of one round of `ses_len`.
  unfoldable pub ses_len_search : Bool → ℕ → ℤ → DPaths → Option Snake × DPaths
  ses_len_search reverse d k v =
      if reverse
      then end_of_frr_d_path_in_k_plus_delta a_size b_size eq k (pos d) v
      else end_of_fr_d_path_in_k a_size b_size eq k (pos d) v

  -- The test that ends `ses_len`, on the result of the search and the last snake.
  unfoldable pub ses_len_done : Bool → Option Snake → Snake → Bool
  ses_len_done reverse found snak =
      if reverse
      then (elim found [ none ↦ false | some s ↦ true ])
        && eqb_ℤ snak.end.x (negsuc 0)
        && eqb_ℤ snak.end.y (negsuc 0)
      else eqb_ℤ snak.end.x (sub_ℕ a_size 1) && eqb_ℤ snak.end.y (sub_ℕ b_size 1)

  -- The loop over `k` in `ses_len`: whether the corner is reached, the vector and the last snake.
  unfoldable pub ses_len_diagonals : Bool → ℕ → ℕ → ℤ → DPaths → Snake → Bool × DPaths × Snake
  ses_len_diagonals reverse zero d k v snak = (false, v, snak)
  ses_len_diagonals reverse (suc n) d k v snak =
      let (found, v') = ses_len_search reverse d k v in
      let snak' = last_snake found snak in
      elim (ses_len_done reverse found snak') [
        | true ↦ (true, v', snak')
        | false ↦ ses_len_diagonals reverse n d (k +ℤ pos 2) v' snak'
      ]

  unfoldable pub ses_len_loop : Bool → ℕ → ℕ → DPaths → Snake → ℕ
  ses_len_loop reverse zero d v snak = 0
  ses_len_loop reverse (suc n) d v snak =
      let (done, v', snak') = ses_len_diagonals reverse (suc d) d (pos 0 -ℤ pos d) v snak in
      elim done [ true ↦ d | false ↦ ses_len_loop reverse n (suc d) v' snak' ]

  -- `ses_len`, on a new vector
  unfoldable pub ses_len : Bool → ℕ
  ses_len reverse =
      ses_len_loop reverse (suc (a_size + b_size)) 0
        (if reverse
          then store new_d_paths (delta_of +ℤ pos 1) (sub_ℕ a_size 1)
          else store new_d_paths (pos 1) (negsuc 0))
        empty_snake
