-- ===== src/Tests/Requests.antt =====
-- Runs of whole requests.
use text.Mathlib.Text.{◌==◌ as text_eq}
use ipsupport_airllm.Base.{
  ℕ, ◌*◌, ◌+◌, ◌≡◌, refl, arith, Bool, true, false, ◌&&◌, ◌||◌, not, none, some, [], ◌∷◌, All,
  if◌then◌else◌, nat_eqb,
}
use ipsupport_airllm.Base.Clock.{second}
use ipsupport_airllm.Base.Dict.{insert}
use ipsupport_airllm.Breaker.Types.{Admission}
use ipsupport_airllm.Providers.Errors.{provider_error, no_code, served_without_call}
use ipsupport_airllm.Routing.Types.{Target}
use ipsupport_airllm.Routing.Order.{ordered}
use ipsupport_airllm.Failover.Policy.{
  classify_upstream_err, all_busy, falls_through, counts_against_tier,
}
use ipsupport_airllm.Failover.Gateway.{Gateway, Outcome, IsSound}
use ipsupport_airllm.Failover.Runs.{skip_tier}
use ipsupport_airllm.Failover.Walk.{
  execute_plan, rounds, walk, visit, try_target, ask_breaker, check_mark, take_slot, attempt,
  at_first_chunk, after_call, after_failure, hand_back, note_outcome, record_success,
  record_failure, last_resort, give_up, one_round, soonest_open,
}
use ipsupport_airllm.Failover.Protocol.{held, nothing_held, execute_plan-Quiet}
use ipsupport_airllm.Failover.Floor.{Allowed, execute_plan-floor}
use ipsupport_airllm.Failover.Report.{Reports, execute_plan-Reports}
use ipsupport_airllm.Tests.Data.{thousandths, enabled}
use ipsupport_airllm.Tests.Orders.{target, plan, rank_of, one_free}

-- The first tier is open, the second is being probed; "bad" fails and "good" serves. The world
-- counts what is asked of it.
abbrev answer : Target ℕ → Outcome
answer t =
    if text_eq t.provider "bad"
    then record {
      committed = false;
      error = some (
          provider_error
            (record { status = 503; retryable = true; code = no_code; retry_after = none }));
    }
    else record { committed = true; error = none }

abbrev let_in : Bool → ℕ → Admission
let_in force tier =
    if nat_eqb tier 0 && not force
    then record { skip = true; probe = false; open_until = some (60 * second) }
    else record { skip = false; probe = force || nat_eqb tier 1; open_until = none }

abbrev pub gateway : Gateway ℕ ℕ
gateway = record {
  next_rr = λ alias w. (w, w + 1);
  free = λ w. one_free;
  rank = rank_of;
  registered = λ provider. true;
  supports = λ provider. none;
  policy = λ t. record { budget = 30 * second; fallback_on_auth = false };
  settings = λ tier. enabled;
  admit = λ force k set w. (let_in force k.tier, w + 1);
  record_outcome = λ k set failed probe w. w + 1;
  abandon_probe = λ k set w. w + 1;
  unavailable = λ t w. (false, w);
  mark_unavailable = λ t err w. w + 1;
  record_lcr = λ t success w. w;
  acquire = λ provider w. (true, w + 1);
  release = λ provider w. w + 1;
  call = λ t budget w. (answer t, w + 1);
  ended = λ w. false;
  wait = λ w. (false, w);
}

let_in-skip :
    (force : Bool) (tier : ℕ) → (let_in force tier).skip ≡ true → (let_in force tier).probe ≡ false
let_in-skip force tier h = ground arith

answer-called :
    (t : Target ℕ) → (answer t).error ≡ some served_without_call → (answer t).committed ≡ false
answer-called t h = ground arith

gateway-IsSound : IsSound gateway
gateway-IsSound = record {
  skip-no_probe = λ force k set w h. let_in-skip force k.tier h;
  uncalled-uncommitted = λ t budget w h. answer-called t h;
}

execute_plan-Quiet_example : held (execute_plan gateway plan none 0).run.log ≡ some nothing_held
execute_plan-Quiet_example = execute_plan-Quiet gateway gateway-IsSound plan none 0

execute_plan-floor_example : All (Allowed (some 1)) (execute_plan gateway plan (some 1) 0).run.log
execute_plan-floor_example = execute_plan-floor gateway plan (some 1) 0

execute_plan-Reports_example :
    Reports (execute_plan gateway plan none 0).err (execute_plan gateway plan none 0).run
execute_plan-Reports_example = execute_plan-Reports gateway plan none 0

-- The open tier is skipped, "bad" fails, and "good" serves the request.
served_test :
    ((execute_plan gateway plan none 0).err ≡ none)
    × ((execute_plan gateway plan none 0).started ≡ true)
    × ((execute_plan gateway plan none 0).run.attempts ≡ 2)
unfolding execute_plan rounds walk visit try_target ask_breaker check_mark take_slot attempt
    at_first_chunk after_call after_failure hand_back note_outcome record_success record_failure
    skip_tier one_round ordered falls_through counts_against_tier
served_test = (refl, refl, refl)

-- With no tier but the open one, its probe is forced and serves the request.
resort_test :
    let alone = record plan { tiers = (target "down" 0 ∷ []) ∷ [] } in
    ((execute_plan gateway alone none 0).err ≡ none)
    × ((execute_plan gateway alone none 0).run.attempts ≡ 1)
    × ((execute_plan gateway alone none 0).run.forced_call ≡ true)
unfolding execute_plan rounds walk visit try_target ask_breaker check_mark take_slot attempt
    at_first_chunk after_call record_success note_outcome skip_tier one_round ordered last_resort
    soonest_open insert
resort_test = (refl, refl, refl)

-- With every slot taken the rounds run out, and the request is busy.
busy_test :
    (execute_plan (record gateway { acquire = λ provider w'. (false, w') }) plan none 0).err
    ≡ some all_busy
unfolding execute_plan rounds walk visit try_target ask_breaker check_mark take_slot hand_back
    skip_tier one_round ordered last_resort give_up
busy_test = refl

status_test : classify_upstream_err all_busy ≡ 429
unfolding classify_upstream_err
status_test = refl
