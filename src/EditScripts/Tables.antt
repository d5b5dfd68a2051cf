-- ===== src/EditScripts/Tables.antt =====
-- What a `d_path_vec` of `include/abg-diff-utils.h` holds: the furthest points, each at the index of its
-- diagonal.
use cyglibabigail.Base.{ℕ, ◌+◌, ◌≤◌, ◌<◌, ◌⊎◌, Bool, false, Option, none, some, ◌≡◌, ℤ, eqb_ℤ}
use cyglibabigail.EditScripts.Points.{Point, point, Snake}
use cyglibabigail.EditScripts.Paths.{DPaths, store}
use cyglibabigail.EditScripts.Follow.{Run}
use cyglibabigail.EditScripts.Furthest.{Furthest}

-- The point is on the diagonal that `p` and `q` elements lead to.
abbrev pub On : ℕ → ℕ → ℕ → ℕ → Type 0
On p q i j = i + p ≡ j + q

module _ (m : ℕ → ℕ → Bool) (x : ℕ → ℤ) where
  -- The vector holds, at the index, the furthest point of a diagonal at the distance `d`.
  pub record Entry (v : DPaths) (index : ℤ) (d p q : ℕ) : Type 0 where
    pub i : ℕ
    pub j : ℕ
    pub on : On p q i j
    pub far : Furthest m d i j
    pub held : v index ≡ x i

  -- Another index that is stored at leaves it as it is.
  pub Entry-store :
      (v : DPaths) (index k y : ℤ) (d p q : ℕ)
      → eqb_ℤ index k ≡ false
      → Entry v index d p q
      → Entry (store v k y) index d p q
  Entry-store v index k y d p q h t = record {
    i = t.i;
    j = t.j;
    on = t.on;
    far = t.far;
    held = rw h t.held;
  }

-- The snake from one point to another, when the end is within `a` and `b`.
abbrev pub Found : (ℕ → ℤ) → (ℕ → ℤ) → ℕ → ℕ → Bool → Point → ℕ → ℕ → ℕ → ℕ → Option Snake → Type 0
Found x y a b forward begin i₀ j₀ i j found =
    ((i ≤ a)
      × (j ≤ b)
      × ((s : Snake) × (found ≡ some s)
          × (s.begin ≡ begin)
          × (s.intermediate ≡ point (x i₀) (y j₀))
          × (s.end ≡ point (x i) (y j))
          × (s.is_forward ≡ forward)))
    ⊎ (((a < i) ⊎ (b < j)) × (found ≡ none))

-- What a search on a diagonal comes to: from a point that `Came` tells of, along matches to a furthest
-- point, which it stores, and the snake that ends there.
pub record Landed (m : ℕ → ℕ → Bool) (x y : ℕ → ℤ) (a b : ℕ) (forward : Bool)
    (Came : ℕ → ℕ → Point → Type 0) (v : DPaths) (index : ℤ) (d p q : ℕ)
    (out : Option Snake × DPaths) : Type 0 where
  pub i₀ : ℕ
  pub j₀ : ℕ
  pub i : ℕ
  pub j : ℕ
  pub begin : Point
  pub came : Came i₀ j₀ begin
  pub r : ℕ
  pub run : Run m i₀ j₀ r
  pub at_i : r + i₀ ≡ i
  pub at_j : r + j₀ ≡ j
  pub on : On p q i j
  pub far : Furthest m d i j
  pub stored : out.1 ≡ store v index (x i)
  pub found : Found x y a b forward begin i₀ j₀ i j out.0
