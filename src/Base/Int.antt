-- ===== src/Base/Int.antt =====
-- Integers over the native numbers.
use Prim.Native.Nat.{ℕ, suc, ◌+◌, ◌-◌}
use mathlib.Core.Path.{◌≡◌}
use mathlib.Core.Bool.{Bool}
use native.Mathlib.Omega.{arith}
use cubiboot.Base.Test.{leb, if◌then◌else◌}

-- `negsuc n` is -(n + 1).
pub data ℤ : Type 0 where
  pos negsuc : ℕ → ℤ

abbrev pub pos_part : ℤ → ℕ
pos_part (pos n) = n
pos_part (negsuc n) = 0

abbrev pub neg_part : ℤ → ℕ
neg_part (pos n) = 0
neg_part (negsuc n) = suc n

-- a - b, as an integer.
abbrev pub sub_ℕ : ℕ → ℕ → ℤ
sub_ℕ a b = if leb b a then pos (a - b) else negsuc (b - a - 1)

infixl 65 ◌+ℤ◌ ◌-ℤ◌
unfoldable pub ◌+ℤ◌ : ℤ → ℕ → ℤ
z +ℤ n = sub_ℕ (pos_part z + n) (neg_part z)

unfoldable pub ◌-ℤ◌ : ℤ → ℕ → ℤ
z -ℤ n = sub_ℕ (pos_part z) (neg_part z + n)

-- Whether z is at least the number n.
abbrev pub at_least : ℤ → ℕ → Bool
at_least z n = leb (n + neg_part z) (pos_part z)

pub +ℤ_parts : (z : ℤ) (n : ℕ) → pos_part (z +ℤ n) + neg_part z ≡ neg_part (z +ℤ n) + pos_part z + n
unfolding ◌+ℤ◌
+ℤ_parts z n = ground arith

pub -ℤ_parts : (z : ℤ) (n : ℕ) → pos_part (z -ℤ n) + neg_part z + n ≡ neg_part (z -ℤ n) + pos_part z
unfolding ◌-ℤ◌
-ℤ_parts z n = ground arith
