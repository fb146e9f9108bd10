-- ===== src/Tests/Pinned.antt =====
-- Runs of sessions that are pinned to a tier.
use ipsupport_airllm.Base.{
  ℕ, ◌*◌, ◌≡◌, refl, ◌==◌, true, none, some, List, [], ◌∷◌, inr, All, if◌then◌else◌, arith,
}
use ipsupport_airllm.Base.Clock.{second}
use ipsupport_airllm.Base.Dict.{lookup, insert, delete}
use ipsupport_airllm.Routing.Types.{Plan}
use ipsupport_airllm.Affinity.{
  Key, key_eq, Store, Access, answered, failed, tier_at, local_pinned, drop_expired, local_pin,
  moves, pin_script, pinned, pin, forget, use_remote, sweep,
}
use ipsupport_airllm.Affinity.Pins.{Distinct, raised_tier, local_pin_lem, pin_script_lem}
use ipsupport_airllm.Affinity.Uses.{NoEarlier, Use, looked, repinned, dropped, uses, use_once}
use ipsupport_airllm.Affinity.Sessions.{pin-pinned, forget-pinned}
use ipsupport_airllm.Failover.Floor.{Allowed}
use ipsupport_airllm.Failover.Session.{
  reaches, session_floor, pin_session, session_request, session_floor-reaches,
  session_request-stays,
}
use ipsupport_airllm.Tests.Data.{thousandths}
use ipsupport_airllm.Tests.Orders.{plan}
use ipsupport_airllm.Tests.Requests.{gateway}

abbrev call_a : Key
call_a = record { alias = "chat"; session = "a" }

abbrev call_b : Key
call_b = record { alias = "chat"; session = "b" }

abbrev pins : Store
pins = record {
  has_redis = true;
  local =
      (call_a, record { tier = 2; until = 50 * second })
      ∷ (call_b, record { tier = 1; until = 10 * second })
      ∷ [];
  redis = [];
  next_sweep = none;
  remote_down_till = none;
}

abbrev online : Access
online = record { wall = 0; failed_at = 0; redis_now = 20 * second; answer = answered }

abbrev offline : Access
offline = record online { answer = failed }

pins-Distinct : Distinct pins.local
unfolding lookup
pins-Distinct = (refl, (refl, tt))

local_pin_lem_example :
    (local_pinned (30 * second) call_b (local_pin (20 * second) call_a 1 (60 * second) pins).0.local
      ≡ (if call_a == call_b
          then raised_tier
              (30 * second)
              (80 * second)
              (local_pinned (20 * second) call_a pins.local)
              1
          else local_pinned (30 * second) call_b pins.local))
    × ((local_pin (20 * second) call_a 1 (60 * second) pins).1
        ≡ moves (local_pinned (20 * second) call_a pins.local) 1)
local_pin_lem_example =
    local_pin_lem (20 * second) (30 * second) call_a call_b 1 (60 * second) pins pins-Distinct
      (omega arith)

pin_script_lem_test :
    (tier_at (30 * second) (lookup call_a (pin_script (20 * second) call_a 3 60_000 pins.local).0)
      ≡ raised_tier
          (30 * second)
          (80 * second)
          (tier_at (20 * second) (lookup call_a pins.local))
          3)
    × ((pin_script (20 * second) call_a 3 60_000 pins.local).1
        ≡ tier_at (20 * second) (lookup call_a pins.local))
pin_script_lem_test = pin_script_lem (20 * second) (30 * second) call_a 3 60_000 pins.local

-- The session is pinned to an earlier tier, another one is dropped, and both are looked up.
abbrev meanwhile : List Use
meanwhile =
    repinned offline (25 * second) call_a 0 (3600 * second)
    ∷ looked online (26 * second) call_b
    ∷ dropped online call_b
    ∷ looked offline (27 * second) call_a
    ∷ []

pin-pinned_example :
    NoEarlier 1
      (pinned offline
        (30 * second)
        call_a
        (uses meanwhile (pin online (20 * second) call_a 1 (60 * second) pins).0)).1
pin-pinned_example =
    pin-pinned online offline (20 * second) (30 * second) call_a 1 (60 * second) meanwhile pins
      pins-Distinct (omega arith, inr (omega arith), (refl, omega arith)) (omega arith)

-- The later tier is kept.
kept_test :
    (pinned offline (30 * second) call_a (pin online (20 * second) call_a 1 (60 * second) pins).0).1
    ≡ some 2
unfolding pinned pin local_pin local_pinned pin_script sweep use_remote lookup insert
kept_test = refl

-- The pin that has expired is dropped.
drop_test :
    drop_expired (20 * second) pins.local
    ≡ ((call_a, record { tier = 2; until = 50 * second }) ∷ [])
unfolding drop_expired
drop_test = refl

pins-remote : use_remote online pins ≡ true
unfolding use_remote
pins-remote = refl

forget-pinned_test : (pinned online (30 * second) call_a (forget online call_a pins)).1 ≡ none
forget-pinned_test = forget-pinned online online (30 * second) call_a pins pins-remote refl

abbrev sticky : Plan ℕ
sticky = record plan { session_affinity = true; session_affinity_ttl = 3600 * second }

floor_found : (session_floor online online (30 * second) sticky "a" pins).1 ≡ some 2
unfolding session_floor pinned local_pinned use_remote lookup
floor_found = refl

session_floor-reaches_test : reaches 2 sticky.tiers ≡ true
session_floor-reaches_test =
    session_floor-reaches online online (30 * second) sticky "a" pins 2 floor_found

starts_at_two :
    (session_floor offline offline
      (30 * second)
      sticky
      "a"
      (uses meanwhile (pin_session online (20 * second) sticky "a" 1 pins))).1
    ≡ some 2
unfolding uses use_once forget session_floor pin_session pinned pin local_pin local_pinned
    pin_script sweep use_remote lookup insert delete
starts_at_two = refl

session_request-stays_example :
    All
      (Allowed (some 1))
      (session_request gateway sticky offline offline offline
        (30 * second)
        (31 * second)
        "a"
        (uses meanwhile (pin_session online (20 * second) sticky "a" 1 pins))
        0).1.run.log
session_request-stays_example =
    session_request-stays gateway sticky "a" online offline offline offline (20 * second)
      (30 * second) (31 * second) 1 2 meanwhile pins 0 refl refl pins-Distinct
      (omega arith, inr (omega arith), (refl, omega arith)) (omega arith) starts_at_two
