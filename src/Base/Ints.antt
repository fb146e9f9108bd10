-- ===== src/Base/Ints.antt =====
-- Whole numbers over the native ℕ, under the library's names.
use Prim.Native.Nat.{ℕ, ◌+◌, ◌-◌}
use mathlib.Core.Path.{◌≡◌}
use mathlib.Core.Bool.{Bool, true, false}
use native.Mathlib.Omega.{arith}
use ipsupport_airllm.Base.Tests.{ltb, leb, nat_eqb, if◌then◌else◌}

-- `negsuc n` is -(n + 1).
pub data ℤ : Type 0 where
  pos negsuc : ℕ → ℤ

-- a - b
unfoldable pub minus : ℕ → ℕ → ℤ
minus a b = if leb b a then pos (a - b) else negsuc (b - a - 1)

unfoldable pub neg : ℤ → ℤ
unfolding minus
neg (pos n) = minus 0 n
neg (negsuc n) = pos (n + 1)

infixl 60 ◌+ℤ◌
unfoldable pub ◌+ℤ◌ : ℤ → ℤ → ℤ
unfolding minus
pos a +ℤ pos b = pos (a + b)
pos a +ℤ negsuc b = minus a (b + 1)
negsuc a +ℤ pos b = minus b (a + 1)
negsuc a +ℤ negsuc b = negsuc (a + b + 1)

-- `a <= b`
unfoldable pub leqℤ : ℤ → ℤ → Bool
leqℤ (pos a) (pos b) = leb a b
leqℤ (pos a) (negsuc b) = false
leqℤ (negsuc a) (pos b) = true
leqℤ (negsuc a) (negsuc b) = leb b a

unfoldable pub is_zero : ℤ → Bool
is_zero (pos n) = nat_eqb n 0
is_zero (negsuc n) = false

unfoldable pub is_positive : ℤ → Bool
is_positive (pos n) = ltb 0 n
is_positive (negsuc n) = false

pub addℤ_comm : (a b : ℤ) → a +ℤ b ≡ b +ℤ a
unfolding ◌+ℤ◌ minus
addℤ_comm (pos a) (pos b) = ground arith
addℤ_comm (pos a) (negsuc b) = ground arith
addℤ_comm (negsuc a) (pos b) = ground arith
addℤ_comm (negsuc a) (negsuc b) = ground arith

pub addℤ_assoc : (a b c : ℤ) → (a +ℤ b) +ℤ c ≡ a +ℤ (b +ℤ c)
unfolding ◌+ℤ◌ minus
addℤ_assoc (pos a) (pos b) (pos c) = ground arith
addℤ_assoc (pos a) (pos b) (negsuc c) = ground arith
addℤ_assoc (pos a) (negsuc b) (pos c) = ground arith
addℤ_assoc (pos a) (negsuc b) (negsuc c) = ground arith
addℤ_assoc (negsuc a) (pos b) (pos c) = ground arith
addℤ_assoc (negsuc a) (pos b) (negsuc c) = ground arith
addℤ_assoc (negsuc a) (negsuc b) (pos c) = ground arith
addℤ_assoc (negsuc a) (negsuc b) (negsuc c) = ground arith

pub addℤ_zero : (a : ℤ) → a +ℤ pos 0 ≡ a
unfolding ◌+ℤ◌ minus
addℤ_zero (pos a) = ground arith
addℤ_zero (negsuc a) = ground arith

pub addℤ_neg : (a : ℤ) → a +ℤ neg a ≡ pos 0
unfolding ◌+ℤ◌ minus neg
addℤ_neg (pos a) = ground arith
addℤ_neg (negsuc a) = ground arith

pub zero_addℤ : (a : ℤ) → pos 0 +ℤ a ≡ a
unfolding ◌+ℤ◌ minus
zero_addℤ (pos a) = ground arith
zero_addℤ (negsuc a) = ground arith
