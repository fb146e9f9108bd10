-- ===== src/Breaker/Machine.antt =====
-- What the breaker's operations do to one record: the closures that `admit`, `Record` and
-- `AbandonProbe` hand to `update`. A closure returns the new record, `none` for "return false",
-- beside what it leaves in the variables that it captures.
use Prim.Native.Nat.{max}
use ipsupport_airllm.Base.{
  ℕ, zero, suc, ◌+◌, ◌-◌, ◌*◌, Bool, true, false, not, ◌&&◌, ◌||◌, Option, none, some, ltb, leb,
  nat_eqb, if◌then◌else◌,
}
use ipsupport_airllm.Base.Float.{Float}
use ipsupport_airllm.Base.Clock.{
  Time, Duration, second, minute, unix_milli, from_milli, milliseconds, since,
}
use ipsupport_airllm.Breaker.Types.{
  Settings, Key, State, unset, closed, opened, half_open, Reason, no_reason, consecutive_failures,
  error_rate_exceeded, probe_failed, Admission, admitted, no_cause, by_probe, forced, tripped,
  Transition, Status, Record, zero_record,
}

abbrev pub min_probe_lease : Duration
min_probe_lease = 30 * second

-- `(Settings).probeLease`
abbrev pub lease : {F : Type 0} → Settings F → Duration
lease set = max set.probe_lease min_probe_lease

-- `ttl`
abbrev pub ttl : {F : Type 0} → Settings F → Duration
ttl set = set.max_cooldown + set.stable + set.window + lease set + minute

-- `(*record).state`
abbrev pub normal : State → State
normal unset = closed
normal s = s

abbrev pub state : Record → State
state r = normal r.state_tag

abbrev cooling_in : State → Record → Time → Bool
cooling_in opened r now = ltb (unix_milli now) r.open_until
cooling_in half_open r now = ltb (unix_milli now) r.probe_until
cooling_in _ r now = false

unfoldable pub cooling_down : Record → Time → Bool
cooling_down r now = cooling_in r.state_tag r now

abbrev pub is_open : State → Bool
is_open opened = true
is_open _ = false

abbrev pub is_closed : State → Bool
is_closed closed = true
is_closed _ = false

unfoldable pub blocks : Record → Time → Bool → Bool
unfolding cooling_down
blocks r now force = if force && is_open (state r) then false else cooling_down r now

unfoldable pub skip : Record → Admission
skip r = record {
  skip = true;
  probe = false;
  open_until = if is_open (state r) then some (from_milli r.open_until) else none;
}

-- The loop of `trip`, from the doublings left.
unfoldable pub grow : ℕ → Duration → Duration → Duration
grow zero cooldown cap = cooldown
grow (suc n) cooldown cap =
    let rest = grow n (cooldown * 2) cap in if ltb cooldown cap then rest else cooldown

-- The trips that `trip` counts, the present one included.
unfoldable pub next_trips : {F : Type 0} → Record → Settings F → Time → ℕ
next_trips r set now =
    if is_closed (state r) && ltb 0 r.closed_at && since now (from_milli r.closed_at) set.stable
    then 1
    else r.trips + 1

-- The cooldown of the given trip.
unfoldable pub trip_cooldown : {F : Type 0} → Settings F → ℕ → Duration
unfolding grow
trip_cooldown set trips =
    let c = grow (trips - 1) set.cooldown set.max_cooldown in
    if ltb 0 set.max_cooldown && ltb set.max_cooldown c then set.max_cooldown else c

module _ {F : Type 0} (k : Key) (set : Settings F) (now : Time) where
  unfoldable pub trip : Record → Reason → Record × Transition
  unfolding next_trips
  trip r reason =
      let trips = next_trips r set now in
      let cooldown = trip_cooldown set trips in
      let until = now + cooldown in
      (
        record zero_record {
          state_tag = opened;
          reason = reason;
          trips = trips;
          cooldown_ms = milliseconds cooldown;
          open_until = unix_milli until;
          closed_at = r.closed_at;
        },
        record {
          key = k;
          from = state r;
          to = opened;
          cause = tripped reason;
          cooldown = cooldown;
          open_until = some until;
        },
      )

  -- The closure of `admit`.
  unfoldable pub admit_step : Bool → Record → Option Record × (Admission × Option Transition)
  unfolding blocks skip
  admit_step force r =
      if is_closed (state r)
      then (none, (admitted, none))
      else if blocks r now force
      then (none, (skip r, none))
      else (
        some (record r { state_tag = half_open; probe_until = unix_milli (now + lease set) }),
        (
          record admitted { probe = true },
          some (record {
            key = k;
            from = state r;
            to = half_open;
            cause = if force && cooling_down r now then forced else no_cause;
            cooldown = 0;
            open_until = none;
          }),
        ),
      )

  -- A window that is missing or over starts anew.
  unfoldable pub roll_window : Record → Record
  roll_window r =
      if nat_eqb r.window_start 0 || since now (from_milli r.window_start) set.window
      then record r { window_start = unix_milli now; window_reqs = 0; window_fails = 0 }
      else r

  -- The closure of `Record` on a half-open tier.
  unfoldable pub record_probe : Bool → Bool → Record → Option Record × Option Transition
  unfolding trip
  record_probe failed probe r =
      if not probe
      then (none, none)
      else if failed
      then (let (r', tr) = trip r probe_failed in (some r', some tr))
      else (
        some (record zero_record {
          state_tag = closed;
          trips = r.trips;
          cooldown_ms = r.cooldown_ms;
          closed_at = unix_milli now;
        }),
        some (record {
          key = k;
          from = half_open;
          to = closed;
          cause = by_probe;
          cooldown = 0;
          open_until = none;
        }),
      )

-- The closures of `Record` on a closed tier compare rates, which are floating-point numbers.
module _ {F : Type 0} ⦃fl : Float F⦄ (k : Key) (set : Settings F) (now : Time) where
  -- `float64(r.WindowFails) > set.ErrorRate*float64(r.WindowReqs)`
  abbrev pub over_rate : ℕ → ℕ → Bool
  over_rate fails reqs = fl.lt (fl.mul set.error_rate (fl.of_int reqs)) (fl.of_int fails)

  -- Why the tier trips after the failure that `r` already counts, if it does.
  unfoldable pub trips_on : Record → Option Reason
  trips_on r =
      if ltb 0 set.failures && leb set.failures r.consecutive
      then some consecutive_failures
      else if ltb 0 set.min_requests
          && (leb set.min_requests r.window_reqs && over_rate r.window_fails r.window_reqs)
      then some error_rate_exceeded
      else none

  unfoldable pub count_failure : Record → Option Record × Option Transition
  unfolding trips_on
  count_failure r =
      let r' = record r { consecutive = r.consecutive + 1; window_fails = r.window_fails + 1 } in
      elim (trips_on r') [
        | none ↦ (some r', none)
        | some why ↦ let (r'', tr) = trip k set now r' why in (some r'', some tr)
      ]

  unfoldable pub record_closed : Bool → Record → Option Record × Option Transition
  unfolding roll_window count_failure
  record_closed failed r =
      let w = roll_window k set now r in
      let r' = record w { window_reqs = w.window_reqs + 1 } in
      if not failed then (some (record r' { consecutive = 0 }), none) else count_failure r'

  abbrev record_in : State → Bool → Bool → Record → Option Record × Option Transition
  record_in half_open failed probe r = record_probe k set now failed probe r
  record_in opened failed probe r = (none, none)
  record_in _ failed probe r = record_closed failed r

  -- The closure of `Record`.
  unfoldable pub record_step : Bool → Bool → Record → Option Record × Option Transition
  unfolding record_probe record_closed
  record_step failed probe r = record_in r.state_tag failed probe r

abbrev abandon_in : State → Time → Record → Option Record
abandon_in half_open now r = some (
    if ltb (unix_milli now) r.open_until
    then record r { probe_until = 0; state_tag = opened }
    else record r { probe_until = 0 })
abandon_in _ now r = none

-- The closure of `AbandonProbe`.
unfoldable pub abandon_step : Time → Record → Option Record
abandon_step now r = abandon_in r.state_tag now r

abbrev status_in : {F : Type 0} → State → Settings F → Time → Status → Record → Status
status_in closed set now st r =
    if ltb 0 r.closed_at && since now (from_milli r.closed_at) set.stable
    then record st { reason = no_reason; trips = 0; cooldown_ms = 0 }
    else record st { reason = no_reason }
status_in opened set now st r = record st { open_until = some (from_milli r.open_until) }
status_in _ set now st r = st

-- `Status`, of the record that was loaded.
unfoldable pub status_of : {F : Type 0} → Settings F → Time → Record → Status
status_of set now r =
    status_in (state r) set now
      (record {
        state = state r;
        reason = r.reason;
        open_until = none;
        cooldown_ms = r.cooldown_ms;
        trips = r.trips;
        consecutive_failures = r.consecutive;
        window_requests = r.window_reqs;
        window_failures = r.window_fails;
      })
      r
