-- ===== src/Tests/Answers.antt =====
-- Runs of the lookup cache, and of an attempt against its budget.
use ipsupport_airllm.Base.{
  ℕ, ◌+◌, ◌*◌, ◌≤◌, ◌≡◌, refl, Bool, true, false, Option, none, some, List, [], ◌∷◌, String,
  string_eq, arith,
}
use ipsupport_airllm.Base.Clock.{second, minute}
use ipsupport_airllm.Base.Dict.{lookup}
use ipsupport_airllm.Lookups.{
  Options, Cache, new, Ticket, found, error, Event, stored, concluded, answered, stale, serves,
  asks, look, store_answer, conclude, purge, run,
}
use ipsupport_airllm.Lookups.Purges.{purge-Forgets, conclude-Quiet}
use ipsupport_airllm.Lookups.Answers.{given, Backed, run-Backed}
use ipsupport_airllm.Failover.Attempt.{
  Attempt, tier_timeout, start, expire, finish, own_error, Reaches, begins, goes_on, timer_fires,
  call_returns, Reaches-Reports,
}

abbrev hourly : Options
hourly = record { ttl = 10 * second; max_stale = 60 * minute }

abbrev asked : Ticket ℕ
asked = record { key = "k"; now = minute; gen = 0; held = none }

abbrev answered_once : List (Event ℕ)
answered_once = stored asked (found 7) ∷ concluded asked (found 7) minute ∷ []

abbrev refresh : Ticket ℕ
refresh = record {
  key = "k";
  now = 2 * minute;
  gen = 0;
  held = some (record { v = 7; at = minute });
}

fresh_test : look hourly "k" (minute + second) (run answered_once new) ≡ serves 7
unfolding look run lookup ipsupport_airllm.Base.Dict.insert
fresh_test = refl

aged_test : look hourly "k" (2 * minute) (run answered_once new) ≡ asks refresh
unfolding look run lookup ipsupport_airllm.Base.Dict.insert
aged_test = refl

run-Backed_example :
    Backed hourly "k"
      (2 * minute)
      (given answered_once [])
      (look hourly "k" (2 * minute) (run answered_once new))
run-Backed_example = run-Backed hourly "k" (2 * minute) answered_once (omega arith)

abbrev warm : Cache ℕ
warm = record { entries = ("k", record { v = 7; at = minute }) ∷ []; gen = 0; quiet_until = none }

purge-Forgets_example :
    let c' = run [] (purge warm) in
    (store_answer refresh (found 8) c' ≡ c')
    × (conclude refresh error (3 * minute) c' ≡ (answered error, c'))
purge-Forgets_example = purge-Forgets refresh 8 (3 * minute) [] warm (omega arith)

warm_entry : lookup "k" warm.entries ≡ some (record { v = 7; at = minute })
unfolding lookup
warm_entry = refl

conclude-Quiet_example :
    (conclude refresh error (2 * minute) warm).0 ≡ stale 7
    × (look hourly "k" (2 * minute + second) (conclude refresh error (2 * minute) warm).1
        ≡ serves 7)
conclude-Quiet_example =
    conclude-Quiet hourly refresh (record { v = 7; at = minute }) (2 * minute) (2 * minute + second)
      warm "k" (record { v = 7; at = minute }) refl refl (omega arith) warm_entry (omega arith)

-- The budget runs out, and the call then returns its error.
abbrev late : Attempt
late = finish own_error false (expire start)

late_reached : Reaches late
unfolding expire finish
late_reached =
    goes_on (expire start) late (goes_on start (expire start) begins (timer_fires start))
      (call_returns (expire start) true false refl)

late_result : late.result ≡ some (false, tier_timeout)
unfolding expire finish
late_result = refl

Reaches-Reports_example :
    (false ≡ late.emitted) × (tier_timeout ≡ tier_timeout → late.emitted ≡ false)
Reaches-Reports_example = Reaches-Reports late false tier_timeout late_reached late_result
