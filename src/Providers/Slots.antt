-- ===== src/Providers/Slots.antt =====
-- internal/providers/provider.go, `Entry`: a provider with a limit on concurrent calls. The channel of
-- capacity `max_conc` is the number of its elements; `max_conc` 0 is no limit, and no channel.
use ipsupport_airllm.Base.{
  ℕ, ◌+◌, ◌-◌, ◌≤◌, ◌^◌, ◌≡◌, ◌⊎◌, ◌||◌, Bool, true, false, ltb, nat_eqb, if◌then◌else◌, arith,
  List, [], ◌∷◌,
}

pub record Entry : Type 0 where
  pub max_conc : ℕ
  pub sem : ℕ
  pub inflight : ℕ

unfoldable pub register : ℕ → Entry
register max_conc = record { max_conc = max_conc; sem = 0; inflight = 0 }

unfoldable pub acquire : Entry → Entry × Bool
acquire e =
    if nat_eqb e.max_conc 0
    then (record e { inflight = e.inflight + 1 }, true)
    else if ltb e.sem e.max_conc
    then (record e { sem = e.sem + 1; inflight = e.inflight + 1 }, true)
    else (e, false)

-- `Release`, of a slot that was acquired.
unfoldable pub release : Entry → Entry
release e =
    if nat_eqb e.max_conc 0
    then record e { inflight = e.inflight - 1 }
    else record e { sem = e.sem - 1; inflight = e.inflight - 1 }

unfoldable pub free : Entry → ℕ
free e = if nat_eqb e.max_conc 0 then 2 ^ 30 else e.max_conc - e.inflight

-- What holds of an entry between two operations.
pub record IsConsistent (e : Entry) : Type 0 where
  pub limited : (e.max_conc ≡ 0) ⊎ ((e.sem ≡ e.inflight) × (e.inflight ≤ e.max_conc))

-- A call takes a slot, or returns one; a return without a slot taken does not occur.
pub data Use : Type 0 where
  take give : Use

unfoldable pub use_slot : Use → Entry → Entry
unfolding acquire release
use_slot take e = (acquire e).0
use_slot give e = if ltb 0 e.inflight then release e else e

unfoldable pub use_slots : List Use → Entry → Entry
unfolding use_slot
use_slots [] e = e
use_slots (u ∷ us) e = use_slots us (use_slot u e)

use_slot-IsConsistent : (u : Use) (e : Entry) → IsConsistent e → IsConsistent (use_slot u e)
unfolding use_slot
use_slot-IsConsistent take e h = ground arith
use_slot-IsConsistent give e h = ground arith

-- However calls take and return slots, a provider with a limit never has more calls in flight than
-- the limit, and the channel holds one element for each of them.
pub use_slots-IsConsistent :
    (us : List Use) (e : Entry) → IsConsistent e → IsConsistent (use_slots us e)
unfolding use_slots
use_slots-IsConsistent [] e h = h
use_slots-IsConsistent (u ∷ us) e h =
    use_slots-IsConsistent us (use_slot u e) (use_slot-IsConsistent u e h)

-- A slot is granted exactly when the provider has no limit or reports one free; to return a slot
-- that was granted restores the entry, and one that is refused changes nothing.
pub acquire-release :
    (e : Entry)
    → IsConsistent e
    → ((acquire e).1 ≡ (nat_eqb e.max_conc 0 || ltb 0 (free e)))
      × ((if (acquire e).1 then release (acquire e).0 else (acquire e).0) ≡ e)
unfolding acquire release free
acquire-release e h = (ground arith, ground arith)
