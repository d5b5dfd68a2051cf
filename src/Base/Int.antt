-- ===== src/Base/Int.antt =====
-- Signed integers over the native numbers, for the type `int` where nothing overflows.
use Prim.Native.Nat.{ℕ, suc, ◌+◌, ◌-◌}
use mathlib.Core.Path.{◌≡◌, ap}
use mathlib.Core.Bool.{Bool, not}
use native.Mathlib.Omega.{arith}
use cyglibabigail.Base.Tests.{leb, ltb, ◌==◌, if◌then◌else◌}

-- `negsuc n` is -(n + 1).
pub data ℤ : Type 0 where
  pos : ℕ → ℤ
  negsuc : ℕ → ℤ

abbrev pub pos_part : ℤ → ℕ
pos_part (pos n) = n
pos_part (negsuc n) = 0

abbrev pub neg_part : ℤ → ℕ
neg_part (pos n) = 0
neg_part (negsuc n) = suc n

-- a - b, as an integer.
unfoldable pub sub_ℕ : ℕ → ℕ → ℤ
sub_ℕ a b = if leb b a then pos (a - b) else negsuc (b - a - 1)

infixl 65 ◌+ℤ◌ ◌-ℤ◌
unfoldable pub ◌+ℤ◌ : ℤ → ℤ → ℤ
a +ℤ b = sub_ℕ (pos_part a + pos_part b) (neg_part a + neg_part b)

unfoldable pub ◌-ℤ◌ : ℤ → ℤ → ℤ
a -ℤ b = sub_ℕ (pos_part a + neg_part b) (neg_part a + pos_part b)

abbrev pub ltb_ℤ : ℤ → ℤ → Bool
ltb_ℤ a b = ltb (pos_part a + neg_part b) (pos_part b + neg_part a)

abbrev pub leb_ℤ : ℤ → ℤ → Bool
leb_ℤ a b = leb (pos_part a + neg_part b) (pos_part b + neg_part a)

abbrev pub eqb_ℤ : ℤ → ℤ → Bool
eqb_ℤ a b = (pos_part a + neg_part b) == (pos_part b + neg_part a)

pub sub_ℕ_parts : (a b : ℕ) → pos_part (sub_ℕ a b) + b ≡ neg_part (sub_ℕ a b) + a
unfolding sub_ℕ
sub_ℕ_parts a b = ground arith

pub +ℤ_parts :
    (a b : ℤ)
    → pos_part (a +ℤ b) + neg_part a + neg_part b ≡ neg_part (a +ℤ b) + pos_part a + pos_part b
unfolding ◌+ℤ◌ sub_ℕ
+ℤ_parts a b = ground arith

pub -ℤ_parts :
    (a b : ℤ)
    → pos_part (a -ℤ b) + neg_part a + pos_part b ≡ neg_part (a -ℤ b) + pos_part a + neg_part b
unfolding ◌-ℤ◌ sub_ℕ
-ℤ_parts a b = ground arith

pub eq_of_parts : (a b : ℤ) → pos_part a + neg_part b ≡ pos_part b + neg_part a → a ≡ b
eq_of_parts a b h = ground arith

pub ruleset int_laws = (arith, sub_ℕ_parts, +ℤ_parts, -ℤ_parts, eq_of_parts)

pub sub_ℕ_eq : (a b c d : ℕ) → a + d ≡ c + b → sub_ℕ a b ≡ sub_ℕ c d
sub_ℕ_eq a b c d h = omega int_laws

pub sub_ℕ_inj : (a b c d : ℕ) → sub_ℕ a b ≡ sub_ℕ c d → a + d ≡ c + b
sub_ℕ_inj a b c d h = omega (arith, sub_ℕ_parts a b, sub_ℕ_parts c d, ap pos_part h, ap neg_part h)

pub sub_ℕ-+ℤ : (a b c : ℕ) → sub_ℕ a b +ℤ pos c ≡ sub_ℕ (a + c) b
sub_ℕ-+ℤ a b c = omega int_laws

pub sub_ℕ--ℤ : (a b c : ℕ) → sub_ℕ a b -ℤ pos c ≡ sub_ℕ a (b + c)
sub_ℕ--ℤ a b c = omega int_laws

pub sub_ℕ-sub_ℕ : (a b c d : ℕ) → sub_ℕ a b -ℤ sub_ℕ c d ≡ sub_ℕ (a + d) (b + c)
sub_ℕ-sub_ℕ a b c d = omega int_laws

pub sub_ℕ-+ℤ-sub_ℕ : (a b c d : ℕ) → sub_ℕ a b +ℤ sub_ℕ c d ≡ sub_ℕ (a + c) (b + d)
sub_ℕ-+ℤ-sub_ℕ a b c d = omega int_laws

pub pos_part-sub_ℕ : (a b : ℕ) → pos_part (sub_ℕ a b) ≡ a - b
unfolding sub_ℕ
pos_part-sub_ℕ a b = ground arith

pub sub_ℕ_nonneg : (a b : ℕ) → not (ltb_ℤ (sub_ℕ a b) (pos 0)) ≡ leb b a
unfolding sub_ℕ
sub_ℕ_nonneg a b = ground arith

-- The tests on differences, as tests on numbers.
pub ltb_ℤ-sub_ℕ : (a b c d : ℕ) → ltb_ℤ (sub_ℕ a b) (sub_ℕ c d) ≡ ltb (a + d) (c + b)
unfolding sub_ℕ
ltb_ℤ-sub_ℕ a b c d = ground arith

pub leb_ℤ-sub_ℕ : (a b c d : ℕ) → leb_ℤ (sub_ℕ a b) (sub_ℕ c d) ≡ leb (a + d) (c + b)
unfolding sub_ℕ
leb_ℤ-sub_ℕ a b c d = ground arith

pub eqb_ℤ-sub_ℕ : (a b c d : ℕ) → eqb_ℤ (sub_ℕ a b) (sub_ℕ c d) ≡ ((a + d) == (c + b))
unfolding sub_ℕ
eqb_ℤ-sub_ℕ a b c d = ground arith
