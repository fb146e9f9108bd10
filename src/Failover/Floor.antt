-- ===== src/Failover/Floor.antt =====
-- internal/httpapi/failover.go, `sessionFloor`: a session that is pinned to a tier.
use ipsupport_airllm.Base.{
  ℕ, ◌+◌, ◌≡◌, Bool, true, false, Option, none, some, All, arith, Bool-cases, Option-cases, inl,
  inr,
}
use ipsupport_airllm.Base.Float.{Float}
use ipsupport_airllm.Base.Clock.{Time}
use ipsupport_airllm.Providers.Errors.{CallError, served_without_call, provider_error, other_error}
use ipsupport_airllm.Routing.Types.{Target, Plan}
use ipsupport_airllm.Failover.Gateway.{Gateway}
use ipsupport_airllm.Failover.Invariant.{FlowHolds, execute_plan-holds}
use ipsupport_airllm.Failover.Runs.{
  Event, admission, outcome, abandoned, acquired, released, called, Run, Flow, skip_tier, note,
}
use ipsupport_airllm.Failover.Walk.{
  hand_back, note_outcome, record_success, record_failure, after_failure, at_first_chunk,
  after_call, attempt, take_slot, check_mark, ask_breaker, try_target, visit, execute_plan, below,
  not_forced, is_some, key_of, settings_of,
}

-- An event that concerns no tier below the floor.
abbrev pub Allowed : {F : Type 0} → Option ℕ → Event F → Type 0
Allowed floor (admission k force probe) = below floor k.tier ≡ false
Allowed floor (outcome k failed probe) = below floor k.tier ≡ false
Allowed floor (abandoned k) = below floor k.tier ≡ false
Allowed floor (called t err) = below floor t.tier ≡ false
Allowed floor (acquired s) = Unit
Allowed floor (released s) = Unit

module _ {F W : Type 0} (floor : Option ℕ) where
  abbrev Above : Run F W → Type 0
  Above r = All (Allowed floor) r.log

  abbrev FlowAbove : Flow F W → Type 0
  FlowAbove = FlowHolds Above (λ res. Above res.run)

module _ {F W : Type 0} (g : Gateway F W) (p : Plan F) (floor : Option ℕ) (t : Target F)
    (high : below floor t.tier ≡ false) (probe : Bool) where
  hand_back-Above : (r : Run F W) → Above floor r → Above floor (hand_back g p t probe r)
  unfolding hand_back
  hand_back-Above r h = ground arith

  record_success-Above : (r : Run F W) → Above floor r → Above floor (record_success g p t probe r)
  unfolding record_success note_outcome
  record_success-Above r h = ground arith

  record_failure-Above :
      (err : CallError) (r : Run F W)
      → Above floor r
      → Above floor (record_failure g p t probe err r)
  unfolding record_failure note_outcome
  record_failure-Above err r h = ground arith

  after_failure-Above :
      (err : CallError) (r : Run F W)
      → Above floor r
      → FlowAbove floor (after_failure g p t probe err r)
  unfolding after_failure
  after_failure-Above err r h = ground (arith, record_failure-Above err r h, hand_back-Above r h)

  after_call-Above :
      (committed : Bool) (err : Option CallError) (r : Run F W)
      → Above floor r
      → FlowAbove floor (after_call g p t probe committed err r)
  unfolding after_call
  after_call-Above true none r h = h
  after_call-Above false none r h = record_success-Above r h
  after_call-Above true (some served_without_call) r h = hand_back-Above r h
  after_call-Above false (some served_without_call) r h = hand_back-Above r h
  after_call-Above true (some (provider_error e)) r h = h
  after_call-Above true (some other_error) r h = h
  after_call-Above false (some (provider_error e)) r h =
      ground (arith, hand_back-Above r h, after_failure-Above (provider_error e) r h)
  after_call-Above false (some other_error) r h =
      ground (arith, hand_back-Above r h, after_failure-Above other_error r h)

  at_first_chunk-Above :
      (committed : Bool) (r : Run F W)
      → Above floor r
      → Above floor (at_first_chunk g p t probe committed r)
  unfolding at_first_chunk
  at_first_chunk-Above true r h = record_success-Above r h
  at_first_chunk-Above false r h = h

  attempt-Above :
      (forced : Bool) (r : Run F W) → Above floor r → FlowAbove floor (attempt g p t probe forced r)
  unfolding attempt
  attempt-Above forced r h =
      let (out, w) = g.call t (g.policy t).budget r.world in
      let r₁ =
        note (called t out.error)
          (record r { world = w; attempts = r.attempts + 1; forced_call = forced }) in
      let r₂ = at_first_chunk g p t probe out.committed r₁ in
      after_call-Above out.committed out.error
        (note (released t.provider) (record r₂ { world = g.release t.provider r₂.world }))
        (tt, at_first_chunk-Above out.committed r₁ (high, h))

  take_slot-Above :
      (forced : Bool) (r : Run F W)
      → Above floor r
      → FlowAbove floor (take_slot g p t probe forced r)
  unfolding take_slot
  take_slot-Above forced r h = elim (Bool-cases (g.acquire t.provider r.world).0) [
    | inl got ↦ rw got (attempt-Above forced _ (tt, h))
    | inr full ↦ rw full (hand_back-Above (record r { world = (g.acquire t.provider r.world).1 }) h)
  ]

  check_mark-Above :
      (forced : Bool) (r : Run F W)
      → Above floor r
      → FlowAbove floor (check_mark g p t probe forced r)
  unfolding check_mark
  check_mark-Above forced r h = elim (Bool-cases (g.unavailable t r.world).0) [
    | inl down ↦ rw down (hand_back-Above (record r { world = (g.unavailable t r.world).1 }) h)
    | inr up ↦ rw up (take_slot-Above forced (record r { world = (g.unavailable t r.world).1 }) h)
  ]

module _ {F W : Type 0} (g : Gateway F W) (p : Plan F) (floor : Option ℕ) where
  skip_tier-Above :
      (t : Target F) (forced : Bool) (until : Option Time) (r : Run F W)
      → Above floor r
      → Above floor (skip_tier t forced until r)
  unfolding skip_tier
  skip_tier-Above t true until r h = h
  skip_tier-Above t false none r h = h
  skip_tier-Above t false (some at) r h = h

  ask_breaker-Above :
      (t : Target F) (forced : Bool) (r : Run F W)
      → below floor t.tier ≡ false
      → Above floor r
      → FlowAbove floor (ask_breaker g p t forced r)
  unfolding ask_breaker
  ask_breaker-Above t forced r high h =
      let (adm, w) = g.admit forced (key_of g p t) (settings_of g p t) r.world in
      let r' = note (admission (key_of g p t) forced adm.probe) (record r { world = w }) in
      elim (Bool-cases adm.skip) [
        | inl skipped ↦ rw skipped (skip_tier-Above t forced adm.open_until r' (high, h))
        | inr admitted ↦
            rw admitted (check_mark-Above g p floor t high adm.probe forced r' (high, h))
      ]

  try_target-Above :
      (t : Target F) (forced : Bool) (r : Run F W)
      → below floor t.tier ≡ false
      → Above floor r
      → FlowAbove floor (try_target g p t forced r)
  unfolding try_target
  try_target-Above t forced r high h = elim (Bool-cases (g.registered t.provider)) [
    | inr missing ↦ rw missing h
    | inl known ↦ elim (Option-cases (g.supports t.provider)) [
      | inr (err, incapable) ↦ rw (known, incapable) h
      | inl capable ↦
          rw (known, capable) (ask_breaker-Above t forced (record r { target = some t }) high h)
    ]
  ]

  visit-Above :
      (forced : Option ℕ) (t : Target F) (r : Run F W)
      → Above floor r
      → FlowAbove floor (visit g p floor forced t r)
  unfolding visit
  visit-Above forced t r h = elim (Bool-cases (below floor t.tier)) [
    | inl low ↦ rw low h
    | inr high ↦ elim (Bool-cases (not_forced forced t.tier r.forced_call)) [
      | inl passed ↦ rw (high, passed) h
      | inr tried ↦ rw (high, tried) (try_target-Above t (is_some forced) r high h)
    ]
  ]

module _ {F W : Type 0} ⦃fl : Float F⦄ (g : Gateway F W) (p : Plan F) where
  -- A session that starts at a tier never asks the breaker of a lower tier, never records an outcome
  -- there and never calls one of its targets, neither in the rounds nor in the last resort.
  pub execute_plan-floor :
      (floor : Option ℕ) (w : W) → All (Allowed floor) (execute_plan g p floor w).run.log
  execute_plan-floor floor w =
      execute_plan-holds g p floor (Above floor) (λ res. Above floor res.run)
        (λ forced. record {
          visit-keeps = λ t r h. visit-Above g p floor forced t r h;
          world-keeps = λ r w busy h. h;
          failure-holds = λ r err h. h;
        })
        w tt
