-- ===== src/Tests/Breakers.antt =====
-- Runs of one stored record.
use ipsupport_airllm.Base.{
  ◌+◌, ◌*◌, ◌^◌, ◌≤◌, ◌<◌, min, ◌≡◌, refl, arith, true, false, none, some, [], ◌∷◌, ltb, leb,
  if◌then◌else◌,
}
use ipsupport_airllm.Base.Clock.{second, unix_milli, from_milli}
use ipsupport_airllm.Breaker.Types.{closed, opened, zero_record}
use ipsupport_airllm.Breaker.Machine.{
  admit_step, record_step, abandon_step, trip_cooldown, grow, status_of, state,
}
use ipsupport_airllm.Breaker.Ops.{seen_kept}
use ipsupport_airllm.Breaker.Cooldown.{cooldown_law}
use ipsupport_airllm.Breaker.Probes.{
  asks, outcome, probes, kept, probes-le-one, admit_step_open, force-abandon, abandon-probe_again,
  record_step_probe,
}
use ipsupport_airllm.Breaker.Records.{
  IsWritten, admits, records, abandons, run_ops, run_ops-IsWritten, zero_record-IsWritten, fail_run,
  fail_run-opens, fail_run-stays, record_step-success,
}
use ipsupport_airllm.Tests.Data.{thousandths, enabled, chat, failing, open_tier, probing_tier}

cooldown_law_example :
    (trip_cooldown enabled 4 ≡ min (enabled.cooldown * 2 ^ 3) enabled.max_cooldown)
    × (enabled.cooldown ≤ trip_cooldown enabled 4)
    × (trip_cooldown enabled 4 ≤ trip_cooldown enabled 5)
    × (grow 9 enabled.cooldown enabled.max_cooldown < 2 ^ 63)
cooldown_law_example = cooldown_law enabled 4 9 (omega arith) (omega arith) (omega arith)

-- Three attempts ask for a tier whose cooldown is over, while an earlier attempt fails.
probes-le-one_example :
    probes chat enabled
      (asks false (200 * second)
        ∷ outcome true (201 * second)
        ∷ asks true (202 * second)
        ∷ asks false (203 * second)
        ∷ [])
      open_tier
    ≤ 1
probes-le-one_example =
    probes-le-one chat enabled (200 * second)
      (asks false (200 * second)
        ∷ outcome true (201 * second)
        ∷ asks true (202 * second)
        ∷ asks false (203 * second)
        ∷ [])
      open_tier
      (
        (omega arith, omega arith),
        (
          (omega arith, omega arith),
          ((omega arith, omega arith), ((omega arith, omega arith), tt)),
        ),
      )

admit_step_open_test :
    let adm = (admit_step chat enabled (100 * second) false open_tier).1.0 in
    (adm.skip ≡ ltb (unix_milli (100 * second)) 120_000)
    × (adm.probe ≡ leb 120_000 (unix_milli (100 * second)))
    × (adm.open_until
        ≡ (if ltb (unix_milli (100 * second)) 120_000 then some (from_milli 120_000) else none))
admit_step_open_test = admit_step_open chat enabled (100 * second) open_tier refl

force-abandon_test :
    abandon_step
      (51 * second)
      (kept (admit_step chat enabled (50 * second) true open_tier).0 open_tier)
    ≡ some (record open_tier { probe_until = 0 })
force-abandon_test =
    force-abandon chat enabled (50 * second) (51 * second) open_tier refl (omega arith)

abandon-probe_again_test :
    (admit_step chat enabled
      (131 * second)
      false
      (kept (abandon_step (130 * second) probing_tier) probing_tier)).1.0.probe
    ≡ true
abandon-probe_again_test =
    abandon-probe_again chat enabled (130 * second) (131 * second) false probing_tier refl
      (omega arith)

record_step_probe_test :
    ((kept
        (record_step chat enabled (125 * second) false true probing_tier).0
        probing_tier).state_tag
      ≡ closed)
    × ((kept (record_step chat enabled (125 * second) false true probing_tier).0 probing_tier).trips
        ≡ 2)
    × ((kept
          (record_step chat enabled (125 * second) true true probing_tier).0
          probing_tier).state_tag
        ≡ opened)
    × ((kept (record_step chat enabled (125 * second) true true probing_tier).0 probing_tier).trips
        ≡ 3)
    × ((kept
          (record_step chat enabled (125 * second) true true probing_tier).0
          probing_tier).open_until
        ≡ unix_milli (125 * second + trip_cooldown enabled 3))
    × (record_step chat enabled (125 * second) true false probing_tier ≡ (none, none))
record_step_probe_test = record_step_probe chat enabled (125 * second) probing_tier true refl

run_ops-IsWritten_example : IsWritten enabled (
    run_ops chat enabled
      ((records true false, second) ∷ (admits false, 2 * second) ∷ (abandons, 3 * second) ∷ [])
      zero_record)
run_ops-IsWritten_example =
    run_ops-IsWritten chat enabled
      ((records true false, second) ∷ (admits false, 2 * second) ∷ (abandons, 3 * second) ∷ [])
      zero_record (zero_record-IsWritten enabled)

fail_run-opens_example :
    (fail_run chat enabled (second ∷ 2 * second ∷ 3 * second ∷ []) zero_record).state_tag ≡ opened
fail_run-opens_example =
    fail_run-opens chat enabled (second ∷ 2 * second ∷ 3 * second ∷ []) zero_record (omega arith)
      refl (omega arith) (omega arith)

fail_run-stays_test :
    (state (fail_run chat enabled (second ∷ 2 * second ∷ []) zero_record) ≡ closed)
    × ((fail_run chat enabled (second ∷ 2 * second ∷ []) zero_record).consecutive ≡ 2)
fail_run-stays_test =
    fail_run-stays chat enabled (second ∷ 2 * second ∷ []) zero_record refl refl (omega arith)

record_step-success_test :
    let r' = kept (record_step chat enabled (5 * second) false false failing).0 failing in
    (state r' ≡ closed)
    × (r'.consecutive ≡ 0)
    × (r'.window_reqs ≤ 3)
    × (r'.window_fails ≤ 2)
    × ((record_step chat enabled (5 * second) false false failing).1 ≡ none)
record_step-success_test = record_step-success chat enabled (5 * second) failing refl

-- The third failure trips the tier for a minute.
third_failure :
    (kept (record_step chat enabled (5 * second) true false failing).0 failing).open_until ≡ 65_000
unfolding record_step trip_cooldown
third_failure = refl

-- The status of an open tier tells its trips and when it opens.
status_test :
    ((status_of enabled second open_tier).trips ≡ 2)
    × ((status_of enabled second open_tier).open_until ≡ some (120 * second))
unfolding status_of
status_test = (refl, refl)

-- A key that was last seen longer ago than its state lives is dropped.
seen_test :
    seen_kept (4000 * second) ((chat, (enabled, second)) ∷ (chat, (enabled, 3000 * second)) ∷ [])
    ≡ ((chat, (enabled, 3000 * second)) ∷ [])
unfolding seen_kept
seen_test = refl
