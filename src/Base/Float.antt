-- ===== src/Base/Float.antt =====
-- float64, which the kernel has no model of: the operations that the modelled code uses, as an
-- interface. A law that a theorem needs is one of its hypotheses.
use Prim.Native.Nat.{ℕ}
use mathlib.Core.Bool.{Bool, true, false}
use mathlib.Core.Path.{◌≡◌}

pub record Float (F : Type 0) : Type 0 where
  -- `float64(n)` of an integer
  pub of_int : ℕ → F
  -- the literal n/d
  pub ratio : ℕ → ℕ → F
  pub mul : F → F → F
  pub add : F → F → F
  pub sub : F → F → F
  pub div : F → F → F
  pub lt : F → F → Bool
  pub le : F → F → Bool
  pub eq : F → F → Bool

-- What comparisons of float64 satisfy away from NaN: `<` is a strict weak order, and equal numbers
-- are not `<` either way.
pub record IsOrdered {F : Type 0} (fl : Float F) : Type 0 where
  pub lt-asymm : (a b : F) → fl.lt a b ≡ true → fl.lt b a ≡ false
  pub lt-weak : (a b c : F) → fl.lt a b ≡ false → fl.lt b c ≡ false → fl.lt a c ≡ false
  pub eq-not-lt : (a b : F) → fl.eq a b ≡ true → (fl.lt a b ≡ false) × (fl.lt b a ≡ false)
