-- ===== src/Failover/Walk.antt =====
-- `executePlan` of internal/httpapi/failover.go. A pass over the targets threads a `Run`, the
-- function's variables with the world and a log of what was done to the breaker, the slots and the
-- providers. A call is one step of the world; the success of one that commits output is recorded after
-- that step and before its slot is free. Metrics and log lines are left out.
use ipsupport_airllm.Base.{
  ℕ, zero, suc, ◌+◌, ◌-◌, Bool, true, false, not, ◌&&◌, ◌||◌, Option, none, some, List, [], ◌∷◌,
  ltb, nat_eqb, nat_eq, if◌then◌else◌,
}
use ipsupport_airllm.Base.Float.{Float}
use ipsupport_airllm.Base.Clock.{Time, second}
use ipsupport_airllm.Base.Dict.{Dict}
use ipsupport_airllm.Breaker.Types.{Settings, Key}
use ipsupport_airllm.Providers.Errors.{CallError, served_without_call}
use ipsupport_airllm.Routing.Types.{lcr, Strategy, Target, Plan}
use ipsupport_airllm.Routing.Order.{ordered}
use ipsupport_airllm.Failover.Policy.{
  falls_through, counts_against_tier, RequestError, all_busy, all_quarantined, all_unavailable,
  not_registered, context_ended, unsupported, call_failed,
}
use ipsupport_airllm.Failover.Gateway.{Gateway}
use ipsupport_airllm.Failover.Runs.{
  unavailable, failure, admission, outcome, abandoned, acquired, released, called, Run, Result,
  Flow, next, stop, note, move, end_with, skip_tier,
}

abbrev pub below : Option ℕ → ℕ → Bool
below none tier = false
below (some floor) tier = ltb tier floor

abbrev pub not_forced : Option ℕ → ℕ → Bool → Bool
not_forced none tier made = false
not_forced (some forced) tier made = not (nat_eqb tier forced) || made

abbrev pub is_some : Option ℕ → Bool
is_some none = false
is_some (some _) = true

module _ {F W : Type 0} (g : Gateway F W) (p : Plan F) where
  abbrev pub key_of : Target F → Key
  key_of t = record { alias = p.alias; tier = t.tier }

  -- The tier's thresholds, with the lease of this target's budget.
  abbrev pub settings_of : Target F → Settings F
  settings_of t = record (g.settings t.tier) { probe_lease = (g.policy t).budget + second }

  -- `if adm.Probe { s.breaker.AbandonProbe(…) }`
  unfoldable pub hand_back : Target F → Bool → Run F W → Run F W
  hand_back t probe r =
      if probe
      then note (abandoned (key_of t))
          (record r { world = g.abandon_probe (key_of t) (settings_of t) r.world })
      else r

  unfoldable pub note_outcome : Target F → Bool → Bool → Run F W → Run F W
  note_outcome t failed probe r =
      note (outcome (key_of t) failed probe)
        (record r { world = g.record_outcome (key_of t) (settings_of t) failed probe r.world })

  abbrev lcr_of : Strategy → Target F → Bool → W → W
  lcr_of lcr t success w = g.record_lcr t success w
  lcr_of _ t success w = w

  abbrev pub note_lcr : Target F → Bool → Run F W → Run F W
  note_lcr t success r = record r { world = lcr_of p.strategy t success r.world }

  -- `recordSuccess`
  unfoldable pub record_success : Target F → Bool → Run F W → Run F W
  record_success t probe r = note_lcr t true (note_outcome t false probe r)

  unfoldable pub record_failure : Target F → Bool → CallError → Run F W → Run F W
  record_failure t probe err r =
      let r' = note_outcome t true probe r in
      note_lcr t false (record r' { world = g.mark_unavailable t err r'.world })

  -- A failed call that committed nothing, from `countsAgainstTier` on.
  unfoldable pub after_failure : Target F → Bool → CallError → Run F W → Flow F W
  after_failure t probe err r =
      let r₁ =
        if counts_against_tier (g.policy t) err
        then record_failure t probe err r
        else hand_back t probe r in
      let r₂ = record r₁ { last_err = some (call_failed err) } in
      if falls_through (g.policy t) err
      then next (move t.tier (failure err) r₂)
      else end_with r₂ false (some (call_failed err))

  -- The success of a call that commits output, recorded at its first chunk.
  unfoldable pub at_first_chunk : Target F → Bool → Bool → Run F W → Run F W
  at_first_chunk t probe committed r = if committed then record_success t probe r else r

  -- What follows the release of the slot, of a call that may have committed output.
  unfoldable pub after_call : Target F → Bool → Bool → Option CallError → Run F W → Flow F W
  after_call t probe committed (some served_without_call) r =
      let r' = hand_back t probe r in
      end_with (record r' { attempts = r'.attempts - 1 }) committed none
  after_call t probe true none r = end_with r true none
  after_call t probe false none r = end_with (record_success t probe r) false none
  after_call t probe true (some err) r = end_with r true (some (call_failed err))
  after_call t probe false (some err) r =
      if g.ended r.world
      then end_with (hand_back t probe r) false (some (call_failed err))
      else after_failure t probe err r

  -- One attempt, its slot acquired.
  unfoldable pub attempt : Target F → Bool → Bool → Run F W → Flow F W
  attempt t probe forced r =
      let (out, w) = g.call t (g.policy t).budget r.world in
      let r₁ =
        note (called t out.error)
          (record r { world = w; attempts = r.attempts + 1; forced_call = forced }) in
      let r₂ = at_first_chunk t probe out.committed r₁ in
      let r₃ = note (released t.provider) (record r₂ { world = g.release t.provider r₂.world }) in
      after_call t probe out.committed out.error r₃

  -- The slot of an admitted attempt.
  unfoldable pub take_slot : Target F → Bool → Bool → Run F W → Flow F W
  take_slot t probe forced r =
      let (got, w) = g.acquire t.provider r.world in
      let r' = record r { world = w } in
      if got
      then attempt t probe forced (note (acquired t.provider) r')
      else next (record (hand_back t probe r') { any_busy = true; saw_busy = true })

  -- An admitted attempt at a target that may be marked unavailable.
  unfoldable pub check_mark : Target F → Bool → Bool → Run F W → Flow F W
  check_mark t probe forced r =
      let (down, w) = g.unavailable t r.world in
      let r' = record r { world = w } in
      if down
      then next (move t.tier unavailable (record (hand_back t probe r') { saw_unavailable = true }))
      else take_slot t probe forced r'

  unfoldable pub ask_breaker : Target F → Bool → Run F W → Flow F W
  ask_breaker t forced r =
      let (adm, w) = g.admit forced (key_of t) (settings_of t) r.world in
      let r' = note (admission (key_of t) forced adm.probe) (record r { world = w }) in
      if adm.skip
      then next (skip_tier t forced adm.open_until r')
      else check_mark t adm.probe forced r'

  -- A target that is tried, from the registry on.
  unfoldable pub try_target : Target F → Bool → Run F W → Flow F W
  try_target t forced r =
      let r' = record r { target = some t } in
      if not (g.registered t.provider)
      then next (record r' { last_err = some not_registered })
      else elim (g.supports t.provider) [
        | some err ↦ next (record r' { skip_err = some err })
        | none ↦ ask_breaker t forced r'
      ]

  -- One turn of the inner loop: `floor` is the session's tier, `forced` the tier of the last resort.
  unfoldable pub visit : Option ℕ → Option ℕ → Target F → Run F W → Flow F W
  visit floor forced t r =
      if below floor t.tier || not_forced forced t.tier r.forced_call
      then next r
      else try_target t (is_some forced) r

  -- The inner loop.
  unfoldable pub walk : Option ℕ → Option ℕ → List (Target F) → Run F W → Flow F W
  walk floor forced [] r = next r
  walk floor forced (t ∷ ts) r = elim (visit floor forced t r) [
    | next r' ↦ walk floor forced ts r'
    | stop res ↦ stop res
  ]

abbrev pub busy_retries : ℕ
busy_retries = 4

module _ {F W : Type 0} ⦃fl : Float F⦄ (g : Gateway F W) (p : Plan F) where
  unfoldable pub one_round : Option ℕ → Option ℕ → Run F W → Flow F W
  one_round floor forced r =
      let (rr, w) = g.next_rr p.alias r.world in
      walk g p floor forced (ordered p rr (g.free w) g.rank)
        (record r { world = w; any_busy = false })

  -- The loop over `retry`, from the rounds left.
  unfoldable pub rounds : Option ℕ → Option ℕ → ℕ → Run F W → Flow F W
  rounds floor forced zero r = next r
  rounds floor forced (suc n) r = elim (one_round floor forced r) [
    | stop res ↦ stop res
    | next r' ↦ elim r'.any_busy [
      | false ↦ next r'
      | true ↦
          let (gone, w) = g.wait r'.world in
          let r'' = record r' { world = w } in
          let more = rounds floor forced n r'' in
          if gone then end_with r'' false (some context_ended) else more
    ]
  ]

-- `soonestOpen`
abbrev pub sooner : ℕ × Time → Option (ℕ × Time) → ℕ × Time
sooner (t, at) none = (t, at)
sooner (t, at) (some (u, until)) =
    if ltb at until || nat_eqb at until && ltb t u then (t, at) else (u, until)

unfoldable pub soonest_open : Dict ℕ Time → Option (ℕ × Time)
soonest_open [] = none
soonest_open (e ∷ es) = some (sooner e (soonest_open es))

-- The error of a request that no target served.
abbrev pub no_target : {F W : Type 0} → Run F W → RequestError
no_target r =
    if r.saw_busy
    then all_busy
    else if r.saw_quarantined
    then all_quarantined
    else if r.saw_unavailable
    then all_unavailable
    else elim r.skip_err [ some err ↦ unsupported err | none ↦ all_busy ]

abbrev pub fail_with : {F W : Type 0} → Run F W → RequestError → Result F W
fail_with r err = record { run = r; started = false; err = some err }

unfoldable pub give_up : {F W : Type 0} → Run F W → Result F W
give_up r = elim r.last_err [ some err ↦ fail_with r err | none ↦ fail_with r (no_target r) ]

abbrev pub start : {F W : Type 0} → W → Run F W
start w = record {
  world = w;
  log = [];
  target = none;
  attempts = 0;
  last_err = none;
  skip_err = none;
  moved = [];
  saw_quarantined = false;
  saw_unavailable = false;
  open_until = [];
  any_busy = false;
  saw_busy = false;
  forced_call = false;
}

module _ {F W : Type 0} ⦃fl : Float F⦄ (g : Gateway F W) (p : Plan F) (floor : Option ℕ) where
  -- The second pass, which forces the probe of one open tier.
  unfoldable pub last_resort : Run F W → Flow F W
  last_resort r =
      if r.saw_busy || ltb 0 r.attempts then next r else elim (soonest_open r.open_until) [
        | none ↦ next r
        | some (tier, _) ↦ rounds g p floor (some tier) (suc busy_retries) r
      ]

  abbrev pub or_give_up : Flow F W → Result F W
  or_give_up (stop res) = res
  or_give_up (next r) = give_up r

  abbrev pub and_then : Flow F W → (Run F W → Flow F W) → Flow F W
  and_then (stop res) k = stop res
  and_then (next r) k = k r

  -- `executePlan`, of a session that starts at `floor`.
  unfoldable pub execute_plan : W → Result F W
  execute_plan w =
      or_give_up (and_then (rounds g p floor none (suc busy_retries) (start w)) last_resort)
