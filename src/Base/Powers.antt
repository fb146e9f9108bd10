-- ===== src/Base/Powers.antt =====
-- Powers of two, for what doubles.
use Prim.Native.Nat.{ℕ, zero, suc, ◌*◌, ◌^◌, ◌≤◌}
use mathlib.Core.Path.{◌≡◌}
use native.Mathlib.Nat.{pow-suc}
use native.Mathlib.Omega.{arith}

pow_pos : (n : ℕ) → 1 ≤ 2 ^ n
pow_pos zero = omega arith
pow_pos (suc n) = rw pow-suc (omega (arith, pow_pos n))

pub le-mul-pow : (n c : ℕ) → c ≤ c * 2 ^ n
le-mul-pow n c = let p : 1 ≤ 2 ^ n = pow_pos n in grind arith

pub pow-double : (n c : ℕ) → c * 2 ^ suc n ≡ c * 2 * 2 ^ n
pow-double n c = rw pow-suc (omega arith)
