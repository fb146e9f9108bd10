-- ===== src/Failover/Report.antt =====
-- internal/httpapi/failover.go: what `executePlan` reports of its attempts, against what it did.
use ipsupport_airllm.Base.{
  ℕ, suc, ◌+◌, ◌-◌, ◌≡◌, refl, sym, ◌∙◌, Bool, true, false, ◌||◌, Option, none, some, List, [], ◌∷◌,
  arith, Bool-cases, Option-cases, inl, inr,
}
use ipsupport_airllm.Base.Float.{Float}
use ipsupport_airllm.Base.Clock.{Time}
use ipsupport_airllm.Providers.Errors.{CallError, served_without_call, provider_error, other_error}
use ipsupport_airllm.Routing.Types.{Target, Plan}
use ipsupport_airllm.Failover.Policy.{RequestError}
use ipsupport_airllm.Failover.Gateway.{Gateway}
use ipsupport_airllm.Failover.Invariant.{FlowHolds, execute_plan-holds}
use ipsupport_airllm.Failover.Runs.{Event, called, released, admission, Run, Flow, note, skip_tier}
use ipsupport_airllm.Failover.Walk.{
  hand_back, note_outcome, record_success, record_failure, key_of, settings_of, after_failure,
  at_first_chunk, after_call, attempt, take_slot, check_mark, ask_breaker, try_target, visit,
  execute_plan, below, not_forced, is_some,
}

-- The calls that a log holds, and the target of the last one.
abbrev pub calls : {F : Type 0} → List (Event F) → ℕ
calls [] = 0
calls (called t err ∷ es) = suc (calls es)
calls (_ ∷ es) = calls es

-- A call is an attempt unless it was answered without its target.
abbrev pub counts : Option CallError → ℕ
counts (some served_without_call) = 0
counts (some (provider_error e)) = 1
counts (some other_error) = 1
counts none = 1

abbrev pub counted : {F : Type 0} → List (Event F) → ℕ
counted [] = 0
counted (called t err ∷ es) = counts err + counted es
counted (_ ∷ es) = counted es

abbrev pub last_called : {F : Type 0} → List (Event F) → Option (Target F)
last_called [] = none
last_called (called t err ∷ es) = some t
last_called (_ ∷ es) = last_called es

-- A request reports the calls that it made, but not one that was answered without its target. A failed one
-- has made no such call. A served one reports the target that it called last.
abbrev pub Reports : {F W : Type 0} → Option RequestError → Run F W → Type 0
Reports (some err) r = (r.attempts ≡ counted r.log) × (r.attempts ≡ calls r.log)
Reports none r = (last_called r.log ≡ r.target) × (r.attempts ≡ counted r.log)

module _ {F W : Type 0} where
  abbrev Counted : Run F W → Type 0
  Counted r = (r.attempts ≡ counted r.log) × (r.attempts ≡ calls r.log)

  abbrev FlowCounted : Flow F W → Type 0
  FlowCounted = FlowHolds Counted (λ res. Reports res.err res.run)

  -- A run whose last call is to the given target and came back with that error.
  abbrev CalledLast : Target F → Option CallError → Run F W → Type 0
  CalledLast t err r =
      (r.attempts + counts err ≡ 1 + counted r.log)
      × (r.attempts ≡ calls r.log)
      × (last_called r.log ≡ some t)
      × (r.target ≡ some t)

module _ {F W : Type 0} (g : Gateway F W) (p : Plan F) (t : Target F) (probe : Bool) where
  hand_back-Counted : (r : Run F W) → Counted r → Counted (hand_back g p t probe r)
  unfolding hand_back
  hand_back-Counted r h = ground arith

  hand_back-CalledLast :
      (err : Option CallError) (r : Run F W)
      → CalledLast t err r
      → CalledLast t err (hand_back g p t probe r)
  unfolding hand_back
  hand_back-CalledLast err r h = ground arith

  record_success-CalledLast :
      (err : Option CallError) (r : Run F W)
      → CalledLast t err r
      → CalledLast t err (record_success g p t probe r)
  unfolding record_success note_outcome
  record_success-CalledLast err r h = ground arith

  record_failure-Counted :
      (err : CallError) (r : Run F W) → Counted r → Counted (record_failure g p t probe err r)
  unfolding record_failure note_outcome
  record_failure-Counted err r h = ground arith

  after_failure-Counted :
      (err : CallError) (r : Run F W) → Counted r → FlowCounted (after_failure g p t probe err r)
  unfolding after_failure
  after_failure-Counted err r h =
      ground (arith, record_failure-Counted err r h, hand_back-Counted r h)

  uncounted :
      (r : Run F W)
      → CalledLast t (some served_without_call) r
      → Reports none (record r { attempts = r.attempts - 1 })
  uncounted r (count, all, last, target) = (last ∙ sym target, omega (arith, count))

  matches : (r : Run F W) → CalledLast t none r → Reports none r
  matches r (count, all, last, target) = (last ∙ sym target, omega (arith, count))

  failed_after :
      (err : CallError) (r : Run F W)
      → counts (some err) ≡ 1
      → CalledLast t (some err) r
      → Counted r
  failed_after err r one (count, all, last, target) = (omega (arith, count, one), all)

  after_call-Counted :
      (committed : Bool) (err : Option CallError) (r : Run F W)
      → CalledLast t err r
      → FlowCounted (after_call g p t probe committed err r)
  unfolding after_call
  after_call-Counted true none r h = matches r h
  after_call-Counted false none r h =
      matches (record_success g p t probe r) (record_success-CalledLast none r h)
  after_call-Counted true (some served_without_call) r h =
      uncounted (hand_back g p t probe r) (hand_back-CalledLast (some served_without_call) r h)
  after_call-Counted false (some served_without_call) r h =
      uncounted (hand_back g p t probe r) (hand_back-CalledLast (some served_without_call) r h)
  after_call-Counted true (some (provider_error e)) r h = failed_after (provider_error e) r refl h
  after_call-Counted true (some other_error) r h = failed_after other_error r refl h
  after_call-Counted false (some (provider_error e)) r h =
      let c = failed_after (provider_error e) r refl h in
      ground (arith, hand_back-Counted r c, after_failure-Counted (provider_error e) r c)
  after_call-Counted false (some other_error) r h =
      let c = failed_after other_error r refl h in
      ground (arith, hand_back-Counted r c, after_failure-Counted other_error r c)

  at_first_chunk-CalledLast :
      (committed : Bool) (err : Option CallError) (r : Run F W)
      → CalledLast t err r
      → CalledLast t err (at_first_chunk g p t probe committed r)
  unfolding at_first_chunk
  at_first_chunk-CalledLast true err r h = record_success-CalledLast err r h
  at_first_chunk-CalledLast false err r h = h

  attempt-Counted :
      (forced : Bool) (r : Run F W)
      → Counted r
      → r.target ≡ some t
      → FlowCounted (attempt g p t probe forced r)
  unfolding attempt
  attempt-Counted forced r h at =
      let (out, w) = g.call t (g.policy t).budget r.world in
      let r₁ =
        note (called t out.error)
          (record r { world = w; attempts = r.attempts + 1; forced_call = forced }) in
      let r₂ = at_first_chunk g p t probe out.committed r₁ in
      after_call-Counted out.committed out.error
        (note (released t.provider) (record r₂ { world = g.release t.provider r₂.world }))
        (at_first_chunk-CalledLast out.committed out.error r₁
          (omega (arith, h.0), omega (arith, h.1), refl, at))

  take_slot-Counted :
      (forced : Bool) (r : Run F W)
      → Counted r
      → r.target ≡ some t
      → FlowCounted (take_slot g p t probe forced r)
  unfolding take_slot
  take_slot-Counted forced r h at = elim (Bool-cases (g.acquire t.provider r.world).0) [
    | inl got ↦ rw got (attempt-Counted forced _ h at)
    | inr full ↦
        rw full (hand_back-Counted (record r { world = (g.acquire t.provider r.world).1 }) h)
  ]

  check_mark-Counted :
      (forced : Bool) (r : Run F W)
      → Counted r
      → r.target ≡ some t
      → FlowCounted (check_mark g p t probe forced r)
  unfolding check_mark
  check_mark-Counted forced r h at = elim (Bool-cases (g.unavailable t r.world).0) [
    | inl down ↦ rw down (hand_back-Counted (record r { world = (g.unavailable t r.world).1 }) h)
    | inr up ↦
        rw up (take_slot-Counted forced (record r { world = (g.unavailable t r.world).1 }) h at)
  ]

module _ {F W : Type 0} (g : Gateway F W) (p : Plan F) where
  skip_tier-Counted :
      (t : Target F) (forced : Bool) (until : Option Time) (r : Run F W)
      → Counted r
      → Counted (skip_tier t forced until r)
  unfolding skip_tier
  skip_tier-Counted t true until r h = h
  skip_tier-Counted t false none r h = h
  skip_tier-Counted t false (some at) r h = h

  ask_breaker-Counted :
      (t : Target F) (forced : Bool) (r : Run F W)
      → Counted r
      → r.target ≡ some t
      → FlowCounted (ask_breaker g p t forced r)
  unfolding ask_breaker
  ask_breaker-Counted t forced r h at =
      let (adm, w) = g.admit forced (key_of g p t) (settings_of g p t) r.world in
      let r' = note (admission (key_of g p t) forced adm.probe) (record r { world = w }) in
      elim (Bool-cases adm.skip) [
        | inl skipped ↦ rw skipped (skip_tier-Counted t forced adm.open_until r' h)
        | inr admitted ↦ rw admitted (check_mark-Counted g p t adm.probe forced r' h at)
      ]

  try_target-Counted :
      (t : Target F) (forced : Bool) (r : Run F W)
      → Counted r
      → FlowCounted (try_target g p t forced r)
  unfolding try_target
  try_target-Counted t forced r h = elim (Bool-cases (g.registered t.provider)) [
    | inr missing ↦ rw missing h
    | inl known ↦ elim (Option-cases (g.supports t.provider)) [
      | inr (err, incapable) ↦ rw (known, incapable) h
      | inl capable ↦
          rw (known, capable) (ask_breaker-Counted t forced (record r { target = some t }) h refl)
    ]
  ]

  visit-Counted :
      (floor forced : Option ℕ) (t : Target F) (r : Run F W)
      → Counted r
      → FlowCounted (visit g p floor forced t r)
  unfolding visit
  visit-Counted floor forced t r h =
      elim (Bool-cases (below floor t.tier || not_forced forced t.tier r.forced_call)) [
        | inl passed ↦ rw passed h
        | inr tried ↦ rw tried (try_target-Counted t (is_some forced) r h)
      ]

module _ {F W : Type 0} ⦃fl : Float F⦄ (g : Gateway F W) (p : Plan F) where
  -- What a request reports is what it did: it reports as many attempts as it made calls, without those
  -- that were answered without their target. One that fails has made no such call; one that is served
  -- reports the target that it called last.
  pub execute_plan-Reports :
      (floor : Option ℕ) (w : W)
      → Reports (execute_plan g p floor w).err (execute_plan g p floor w).run
  execute_plan-Reports floor w =
      execute_plan-holds g p floor Counted (λ res. Reports res.err res.run)
        (λ forced. record {
          visit-keeps = λ t r h. visit-Counted g p floor forced t r h;
          world-keeps = λ r w busy h. h;
          failure-holds = λ r err h. h;
        })
        w (refl, refl)
