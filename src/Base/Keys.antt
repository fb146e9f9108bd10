-- ===== src/Base/Keys.antt =====
-- Decidable equality of keys as an interface, with the instances for texts and numbers.
use text.Mathlib.TextEquality.{eq_iff}
use text.Mathlib.Text
use ipsupport_airllm.Base.Tests.{nat_eqb_iff, nat_eqb}
use mathlib.Core.Bool.{Bool, true}
use mathlib.Core.Logic.{◌↔◌}
use mathlib.Core.Path.{◌≡◌}
use Prim.Native.String.{String}
use Prim.Native.Nat.{ℕ}

-- A test of equality, with the law that it decides it.
pub record Eq {ℓ} (K : Type ℓ) : Type ℓ where
  pub equal : K → K → Bool
  pub equal_iff : (i j : K) → (equal i j ≡ true) ↔ (i ≡ j)

instance abbrev pub string_eq : Eq String
string_eq = record { equal_iff = eq_iff; equal = Text.◌==◌ }

instance abbrev pub nat_eq : Eq ℕ
nat_eq = record { equal_iff = nat_eqb_iff; equal = nat_eqb }

infix 50 ◌==◌
abbrev pub ◌==◌ {ℓ} : {K : Type ℓ} ⦃keys : Eq K⦄ → K → K → Bool
◌==◌ ⦃keys⦄ i j = keys.equal i j
