-- ===== src/Tests/Stores.antt =====
-- Runs of the breaker's methods, the unavailability marks and the providers' slots.
use mathlib.Core.Option
use ipsupport_airllm.Base.{
  ℕ, ◌+◌, ◌-◌, ◌*◌, ◌^◌, ◌≤◌, ◌<◌, min, ◌≡◌, refl, ◌&&◌, ◌||◌, ◌++◌, inr, arith, true, false,
  Option, none, some, [], ◌∷◌, ltb, nat_eqb, if◌then◌else◌,
}
use ipsupport_airllm.Base.Clock.{second, millisecond, unix_milli, from_milli}
use ipsupport_airllm.Base.Dict.{Dict, lookup, insert}
use ipsupport_airllm.Breaker.Types.{
  Key, key_eq, closed, opened, zero_record, Transition, tripped, consecutive_failures, admitted,
  Record,
}
use ipsupport_airllm.Breaker.Machine.{record_step, trip_cooldown, abandon_step, status_of}
use ipsupport_airllm.Breaker.Stores.{
  Error, Breaker, update, use_remote, load, contended, mem_load, redis_load, redis_read,
  redis_update, update_attempts,
}
use ipsupport_airllm.Breaker.Ops.{
  release_loaded, admit, record_outcome, release, abandon_probe, status,
}
use ipsupport_airllm.Breaker.Probes.{kept}
use ipsupport_airllm.Breaker.Races.{
  Settled, redis_update-Settled, redis_update-reads_back, after_races, now_stands,
}
use ipsupport_airllm.Breaker.Local.{changed, RunsLocally, admit_local, admit_ended, reports}
use ipsupport_airllm.Breaker.Reports.{record_local, record_contended, release-forgets}
use ipsupport_airllm.Breaker.Skips.{admit-skip-probe}
use ipsupport_airllm.Unavail
use ipsupport_airllm.Unavail.Laws.{still_kept, check-mark, clear-forgets}
use ipsupport_airllm.Unavail.Backoff.{nth_backoff, nth_backoff-eq-min}
use ipsupport_airllm.Providers.Slots.{
  Entry, register, acquire, free, IsConsistent, take, give, use_slots, use_slots-IsConsistent,
  acquire-release,
}
use ipsupport_airllm.Providers.Slots
use ipsupport_airllm.Tests.Data.{
  thousandths, plain, plain-RoundTrips, plain_mark, plain_mark-RoundTrips, enabled, chat, backup,
  probing_tier, answering, silent, losing, alone, shared,
}

redis_update-Settled_example :
    Settled plain chat
      (record_step chat enabled (5 * second) true false)
      losing.attempts
      5
      0
      shared.redis
      (redis_update plain chat
        (record_step chat enabled (5 * second) true false)
        losing.attempts
        5
        0
        shared.redis
        none)
redis_update-Settled_example =
    redis_update-Settled plain chat (record_step chat enabled (5 * second) true false)
      losing.attempts 5 0 shared.redis none

-- A failure of `chat`, as the closure of `Record`
abbrev failure : Record → Option Record × Option Transition
failure = record_step chat enabled (5 * second) true false

abbrev after_failure : Option Error × Dict Key Record × Option Transition
after_failure = redis_update plain chat failure answering.attempts 5 0 shared.redis none

went_through : after_failure ≡ (none, after_failure.1, after_failure.2)
unfolding redis_update record_step lookup insert
went_through = refl

redis_update-reads_back_example :
    (j : ℕ) × (j < 5)
    × (redis_load plain chat after_failure.1
        ≡ now_stands
            (failure
              (redis_read plain chat (after_races chat answering.attempts 0 j shared.redis))).0
            (redis_load plain chat (after_races chat answering.attempts 0 j shared.redis)))
redis_update-reads_back_example =
    redis_update-reads_back plain plain-RoundTrips chat failure answering.attempts 5 shared.redis
      after_failure.1 none after_failure.2 went_through

alone-local : use_remote answering alone ≡ false
unfolding use_remote
alone-local = refl

admit_local_example :
    RunsLocally plain backup answering answering enabled
      (200 * second)
      false
      chat
      alone
      (admit plain backup answering answering enabled (200 * second) false alone)
admit_local_example =
    admit_local plain backup answering answering enabled (200 * second) false chat alone refl
      alone-local alone-local

shared-remote : use_remote silent shared ≡ true
unfolding use_remote
shared-remote = refl

admit_ended_test : (admit plain backup silent answering enabled second false shared).1 ≡ admitted
admit_ended_test =
    admit_ended plain backup silent answering enabled second false shared shared-remote refl refl

admit-skip-probe_example :
    ((admit plain backup answering losing enabled (200 * second) false shared).1.skip
      && (admit plain backup answering losing enabled (200 * second) false shared).1.probe)
    ≡ false
admit-skip-probe_example =
    admit-skip-probe plain backup answering losing enabled (200 * second) false shared

record_local_test :
    let res = record_outcome plain chat answering enabled (5 * second) true false alone in
    let step = record_step chat enabled (5 * second) true false (mem_load chat alone.local) in
    (mem_load backup res.local
      ≡ changed chat (kept step.0 (mem_load chat alone.local)) backup alone.local)
    × (res.observed ≡ alone.observed ++ reports step.1)
record_local_test =
    record_local plain chat answering enabled (5 * second) true false backup alone refl alone-local

-- The third failure's transition.
abbrev third_trip : Transition
third_trip = record {
  key = chat;
  from = closed;
  to = opened;
  cause = tripped consecutive_failures;
  cooldown = 60 * second;
  open_until = some (65 * second);
}

loses_all :
    redis_update plain chat
      (record_step chat enabled (5 * second) true false)
      losing.attempts
      update_attempts
      0
      shared.redis
      none
    ≡ (some contended, shared.redis, some third_trip)
unfolding redis_update insert record_step trip_cooldown lookup
loses_all = refl

shared-losing : use_remote losing shared ≡ true
unfolding use_remote
shared-losing = refl

record_contended_example :
    let res = record_outcome plain chat losing enabled (5 * second) true false shared in
    ((j : ℕ) × (j ≤ 5) × (res.redis ≡ after_races chat losing.attempts 0 j shared.redis))
    × (res.local ≡ shared.local)
    × (res.observed ≡ shared.observed ++ (third_trip ∷ []))
record_contended_example =
    record_contended plain chat losing enabled (5 * second) true false shared shared.redis
      third_trip refl shared-losing loses_all

releases : (release plain backup answering answering shared).1 ≡ none
unfolding release release_loaded load
releases = refl

release-forgets_test :
    let b' = (release plain backup answering answering shared).0 in
    (mem_load backup b'.local ≡ zero_record) × (redis_load plain backup b'.redis ≡ zero_record)
release-forgets_test = release-forgets plain backup answering answering shared refl releases

abbrev probing : Breaker ℕ Record
probing = record alone { local = (backup, probing_tier) ∷ [] }

-- A probe that is handed back before the cooldown ends leaves the tier open.
abandon_test :
    Option.map
      (λ st. st.state)
      (status plain backup answering enabled
        (51 * second)
        (abandon_probe plain backup answering enabled (50 * second) probing)).1
    ≡ some opened
unfolding status abandon_probe abandon_step update load lookup insert status_of mem_load
abandon_test = refl

abbrev gpt : Unavail.Key
gpt = record { provider = "openai"; upstream_model = "gpt-4o" }

abbrev marks : Unavail.Store Unavail.Mark
marks = record { has_redis = true; redis = []; local = [] }

abbrev both_ways : Unavail.Access
both_ways = record { reads = true; writes = true; redis_now = second }

check-mark_example :
    let (s', dur) =
      Unavail.mark plain_mark both_ways gpt second none
        (200 * millisecond)
        (25600 * millisecond)
        marks in
    let until = from_milli (unix_milli (second + dur)) in
    Unavail.check plain_mark both_ways gpt (second + millisecond) s' ≡ (
      if ltb (second + millisecond) until
        && still_kept plain_mark plain_mark-RoundTrips both_ways both_ways gpt marks
      then some (until - (second + millisecond))
      else none)
check-mark_example =
    check-mark plain_mark plain_mark-RoundTrips both_ways both_ways gpt second
      (second + millisecond) none (200 * millisecond) (25600 * millisecond) marks
      (λ h. absurd (ground arith))

clear-forgets_test :
    (Unavail.check plain_mark both_ways gpt second (Unavail.clear both_ways gpt marks) ≡ none)
    × ((Unavail.mark plain_mark both_ways gpt second none
          (200 * millisecond)
          second
          (Unavail.clear both_ways gpt marks)).1
        ≡ 200 * millisecond)
clear-forgets_test =
    clear-forgets plain_mark plain_mark-RoundTrips both_ways both_ways gpt second
      (200 * millisecond) second marks (λ h. refl)

nth_backoff-eq-min_test :
    nth_backoff (200 * millisecond) (25600 * millisecond) (λ n. n * second) 5
    ≡ min (200 * 2 ^ 5) 25600 * millisecond
nth_backoff-eq-min_test =
    nth_backoff-eq-min 200 25600 (λ n. n * second) 5 (omega arith) (omega arith)

fresh-IsConsistent : IsConsistent (register 2)
unfolding register
fresh-IsConsistent = record { limited = inr (refl, omega arith) }

use_slots-IsConsistent_test : IsConsistent (use_slots (take ∷ take ∷ take ∷ give ∷ []) (register 2))
use_slots-IsConsistent_test =
    use_slots-IsConsistent (take ∷ take ∷ take ∷ give ∷ []) (register 2) fresh-IsConsistent

acquire-release_test :
    ((acquire (register 2)).1 ≡ (nat_eqb (register 2).max_conc 0 || ltb 0 (free (register 2))))
    × ((if (acquire (register 2)).1
          then Slots.release (acquire (register 2)).0
          else (acquire (register 2)).0)
        ≡ register 2)
acquire-release_test = acquire-release (register 2) fresh-IsConsistent
