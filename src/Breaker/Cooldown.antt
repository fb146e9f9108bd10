-- ===== src/Breaker/Cooldown.antt =====
-- The cooldown of a trip, against its closed form.
use Prim.Native.Nat.{max}
use native.Mathlib.Nat.{pow-le-pow_right}
use ipsupport_airllm.Base.{
  le-mul-pow, pow-double, ℕ, zero, suc, ◌+◌, ◌-◌, ◌*◌, ◌^◌, ◌≤◌, ◌<◌, min, ◌≡◌, arith, ltb, false,
  Bool-cases, inl, inr,
}
use ipsupport_airllm.Base.Clock.{Duration}
use ipsupport_airllm.Breaker.Types.{Settings}
use ipsupport_airllm.Breaker.Machine.{grow, trip_cooldown}

le_of_not-ltb : (a b : ℕ) → ltb a b ≡ false → b ≤ a
le_of_not-ltb a b h = ground arith

grow-min : (n : ℕ) (c top : Duration) → min (grow n c top) top ≡ min (c * 2 ^ n) top
unfolding grow
grow-min zero c top = omega arith
grow-min (suc n) c top = elim (Bool-cases (ltb c top)) [
  | inl below ↦ rw (below, pow-double n c) (grow-min n (c * 2) top)
  | inr above ↦ rw above (omega (arith, le-mul-pow (suc n) c, le_of_not-ltb c top above))
]

-- The doubling loop never holds more than the larger of its start and twice the cap.
grow-le : (n : ℕ) (c top : Duration) → grow n c top ≤ max c (2 * top)
unfolding grow
grow-le zero c top = omega arith
grow-le (suc n) c top = ground (arith, grow-le n (c * 2) top)

trip_cooldown-eq-min :
    {F : Type 0} (set : Settings F) (trips : ℕ)
    → 0 < set.max_cooldown
    → trip_cooldown set trips ≡ min (set.cooldown * 2 ^ (trips - 1)) set.max_cooldown
unfolding trip_cooldown
trip_cooldown-eq-min set trips h =
    ground (arith, grow-min (trips - 1) set.cooldown set.max_cooldown)

trip_cooldown_mono :
    {F : Type 0} (set : Settings F) (trips : ℕ)
    → 0 < set.max_cooldown
    → trip_cooldown set trips ≤ trip_cooldown set (trips + 1)
trip_cooldown_mono set trips h =
    let p : 2 ^ (trips - 1) ≤ 2 ^ (trips + 1 - 1) = pow-le-pow_right (omega arith) (omega arith) in
    let q : set.cooldown * 2 ^ (trips - 1) ≤ set.cooldown * 2 ^ (trips + 1 - 1) = grind arith in
    omega (arith, trip_cooldown-eq-min set trips h, trip_cooldown-eq-min set (trips + 1) h)

pub trip_cooldown-le :
    {F : Type 0} (set : Settings F) (trips : ℕ)
    → 0 < set.max_cooldown
    → trip_cooldown set trips ≤ set.max_cooldown
trip_cooldown-le set trips h = omega (arith, trip_cooldown-eq-min set trips h)

-- With a positive cap below 2^62 and a first cooldown of no more than the cap, the n-th trip keeps the
-- tier open for min (cooldown * 2^(n - 1)) cap: so never longer than the cap, never shorter than the
-- first cooldown, and no trip's cooldown is shorter than the one before; and no number that the
-- doubling loop holds passes 2^63 - 1.
pub cooldown_law :
    {F : Type 0} (set : Settings F) (trips n : ℕ)
    → 0 < set.max_cooldown
    → set.max_cooldown < 2 ^ 62
    → set.cooldown ≤ set.max_cooldown
    → (trip_cooldown set trips ≡ min (set.cooldown * 2 ^ (trips - 1)) set.max_cooldown)
      × (set.cooldown ≤ trip_cooldown set trips)
      × (trip_cooldown set trips ≤ trip_cooldown set (trips + 1))
      × (grow n set.cooldown set.max_cooldown < 2 ^ 63)
cooldown_law set trips n h bound le = (
  trip_cooldown-eq-min set trips h,
  rw trip_cooldown-eq-min (omega (arith, le-mul-pow (trips - 1) set.cooldown)),
  trip_cooldown_mono set trips h,
  omega (arith, grow-le n set.cooldown set.max_cooldown),
)
