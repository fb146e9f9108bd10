-- ===== src/Failover/Protocol.antt =====
-- The order in which a request uses the breaker, the slots and the providers.
use ipsupport_airllm.Base.{
  ◌+◌, ℕ, String, ◌≡◌, refl, Bool, true, false, ◌&&◌, ◌||◌, Option, none, some, List, [], ◌∷◌,
  if◌then◌else◌, ◌==◌, string_eq, arith, Bool-cases, Option-cases, inl, inr,
}
use ipsupport_airllm.Base.Float.{Float}
use ipsupport_airllm.Base.Clock.{Time}
use ipsupport_airllm.Breaker.Types.{Key, key_eq}
use ipsupport_airllm.Providers.Errors.{CallError, served_without_call, provider_error, other_error}
use ipsupport_airllm.Routing.Types.{Target, Plan}
use ipsupport_airllm.Failover.Policy.{counts_against_tier, falls_through, call_failed}
use ipsupport_airllm.Failover.Gateway.{Gateway, IsSound}
use ipsupport_airllm.Failover.Invariant.{FlowHolds, execute_plan-holds}
use ipsupport_airllm.Failover.Runs.{
  Event, admission, outcome, abandoned, acquired, released, called, move, failure, end_with, Run,
  Flow, next, skip_tier, note,
}
use ipsupport_airllm.Failover.Walk.{
  key_of, hand_back, note_outcome, record_success, record_failure, after_failure, at_first_chunk,
  after_call, attempt, take_slot, check_mark, ask_breaker, try_target, visit, execute_plan,
  settings_of, below, not_forced, is_some,
}

-- What a request holds: the probe of a tier, a slot of a provider.
pub record Held : Type 0 where
  pub probe : Option Key
  pub slot : Option String

abbrev pub nothing_held : Held
nothing_held = record { probe = none; slot = none }

abbrev pub unless : Bool → Held → Option Held
unless true h = none
unless false h = some h

abbrev pub has_probe : Held → Key → Bool
has_probe h k = elim h.probe [ none ↦ false | some j ↦ j == k ]

abbrev pub has_slot : Held → String → Bool
has_slot h s = elim h.slot [ none ↦ false | some t ↦ t == s ]

abbrev pub is_free : {A : Type 0} → Option A → Bool
is_free none = true
is_free (some _) = false

abbrev pub allow : Bool → Held → Option Held
allow b h = if b then some h else none

-- What an event leaves held; `none` for an event that is out of order.
abbrev pub after : {F : Type 0} → Event F → Held → Option Held
after (admission k force probe) h =
    allow (is_free h.probe && is_free h.slot) (record h { probe = if probe then some k else none })
after (acquired s) h = allow (is_free h.slot) (record h { slot = some s })
after (called t err) h = allow (has_slot h t.provider) h
after (released s) h = allow (has_slot h s) (record h { slot = none })
after (outcome k failed true) h = allow (has_probe h k) (record h { probe = none })
after (outcome k failed false) h = allow (is_free h.probe) h
after (abandoned k) h = allow (has_probe h k) (record h { probe = none })

-- What a log, newest event first, leaves held.
abbrev pub held : {F : Type 0} → List (Event F) → Option Held
held [] = some nothing_held
held (e ∷ es) = elim (held es) [ none ↦ none | some h ↦ after e h ]

abbrev pub probing : Bool → Key → Held
probing probe k = record { probe = if probe then some k else none; slot = none }

abbrev pub Quiet : {F W : Type 0} → Run F W → Type 0
Quiet r = held r.log ≡ some nothing_held

abbrev pub FlowQuiet : {F W : Type 0} → Flow F W → Type 0
FlowQuiet = FlowHolds Quiet (λ res. Quiet res.run)

module _ {F W : Type 0} (g : Gateway F W) (p : Plan F) (t : Target F) (probe : Bool) where
  hand_back-Quiet :
      (r : Run F W)
      → held r.log ≡ some (probing probe (key_of g p t))
      → Quiet (hand_back g p t probe r)
  unfolding hand_back
  hand_back-Quiet r h = ground (arith, key_eq.equal_iff (key_of g p t) (key_of g p t))

  record_success-Quiet :
      (r : Run F W)
      → held r.log ≡ some (probing probe (key_of g p t))
      → Quiet (record_success g p t probe r)
  unfolding record_success note_outcome
  record_success-Quiet r h = ground (arith, key_eq.equal_iff (key_of g p t) (key_of g p t))

  record_failure-Quiet :
      (err : CallError) (r : Run F W)
      → held r.log ≡ some (probing probe (key_of g p t))
      → Quiet (record_failure g p t probe err r)
  unfolding record_failure note_outcome
  record_failure-Quiet err r h = ground (arith, key_eq.equal_iff (key_of g p t) (key_of g p t))

  after_failure-Quiet :
      (err : CallError) (r : Run F W)
      → held r.log ≡ some (probing probe (key_of g p t))
      → FlowQuiet (after_failure g p t probe err r)
  unfolding after_failure
  after_failure-Quiet err r h = elim (Bool-cases (counts_against_tier (g.policy t) err)) [
    | inl counts ↦
        rw counts (ending (record_failure g p t probe err r) (record_failure-Quiet err r h))
    | inr spared ↦ rw spared (ending (hand_back g p t probe r) (hand_back-Quiet r h))
  ]
    where
      ending :
          (r' : Run F W)
          → Quiet r'
          → FlowQuiet (
              if falls_through (g.policy t) err
              then next
                  (move t.tier (failure err) (record r' { last_err = some (call_failed err) }))
              else end_with
                  (record r' { last_err = some (call_failed err) })
                  false
                  (some (call_failed err)))
      ending r' q = ground arith

  -- What an attempt holds of its probe, with the slot of `h`: nothing once its success is recorded.
  abbrev left : Bool → Held → Held
  left true h = record h { probe = none }
  left false h = record h { probe = if probe then some (key_of g p t) else none }

  at_first_chunk-held :
      (committed : Bool) (r : Run F W) (slot : Option String)
      → held r.log ≡ some (record (probing probe (key_of g p t)) { slot = slot })
      → held (at_first_chunk g p t probe committed r).log
        ≡ some (left committed (record nothing_held { slot = slot }))
  unfolding at_first_chunk record_success note_outcome
  at_first_chunk-held true r slot h = ground (arith, key_eq.equal_iff (key_of g p t) (key_of g p t))
  at_first_chunk-held false r slot h = ground arith

  released-held :
      (committed : Bool) (r : Run F W) (w : W)
      → held r.log ≡ some (left committed (record nothing_held { slot = some t.provider }))
      → held (note (released t.provider) (record r { world = w })).log
        ≡ some (left committed nothing_held)
  released-held true r w h = ground (arith, string_eq.equal_iff t.provider t.provider)
  released-held false r w h = ground (arith, string_eq.equal_iff t.provider t.provider)

  after_call-Quiet :
      (committed : Bool) (err : Option CallError) (r : Run F W)
      → (err ≡ some served_without_call → committed ≡ false)
      → held r.log ≡ some (left committed nothing_held)
      → FlowQuiet (after_call g p t probe committed err r)
  unfolding after_call
  after_call-Quiet true none r law h = h
  after_call-Quiet false none r law h = record_success-Quiet r h
  after_call-Quiet true (some served_without_call) r law h = absurd (ground (arith, law refl))
  after_call-Quiet false (some served_without_call) r law h = hand_back-Quiet r h
  after_call-Quiet true (some (provider_error e)) r law h = h
  after_call-Quiet true (some other_error) r law h = h
  after_call-Quiet false (some (provider_error e)) r law h = elim (Bool-cases (g.ended r.world)) [
    | inl gone ↦ rw gone (hand_back-Quiet r h)
    | inr live ↦ rw live (after_failure-Quiet (provider_error e) r h)
  ]
  after_call-Quiet false (some other_error) r law h = elim (Bool-cases (g.ended r.world)) [
    | inl gone ↦ rw gone (hand_back-Quiet r h)
    | inr live ↦ rw live (after_failure-Quiet other_error r h)
  ]

module _ {F W : Type 0} (g : Gateway F W) (sound : IsSound g) (p : Plan F) where
  module _ (t : Target F) (probe forced : Bool) where
    attempt-Quiet :
        (r : Run F W)
        → held r.log ≡ some (record (probing probe (key_of g p t)) { slot = some t.provider })
        → FlowQuiet (attempt g p t probe forced r)
    unfolding attempt
    attempt-Quiet r h =
        let (out, w) = g.call t (g.policy t).budget r.world in
        let r₁ =
          note (called t out.error)
            (record r { world = w; attempts = r.attempts + 1; forced_call = forced }) in
        let r₂ = at_first_chunk g p t probe out.committed r₁ in
        let w' = g.release t.provider r₂.world in
        after_call-Quiet g p t probe out.committed out.error
          (note (released t.provider) (record r₂ { world = w' }))
          (sound.uncalled-uncommitted t (g.policy t).budget r.world)
          (released-held g p t probe out.committed r₂ w' (
            at_first_chunk-held g p t probe out.committed r₁ (some t.provider)
              (ground (arith, string_eq.equal_iff t.provider t.provider))))

    take_slot-Quiet :
        (r : Run F W)
        → held r.log ≡ some (probing probe (key_of g p t))
        → FlowQuiet (take_slot g p t probe forced r)
    unfolding take_slot
    take_slot-Quiet r h = elim (Bool-cases (g.acquire t.provider r.world).0) [
      | inl got ↦ rw got (attempt-Quiet _ (ground arith))
      | inr full ↦
          rw full
            (hand_back-Quiet g p t probe (record r { world = (g.acquire t.provider r.world).1 }) h)
    ]

    check_mark-Quiet :
        (r : Run F W)
        → held r.log ≡ some (probing probe (key_of g p t))
        → FlowQuiet (check_mark g p t probe forced r)
    unfolding check_mark
    check_mark-Quiet r h = elim (Bool-cases (g.unavailable t r.world).0) [
      | inl down ↦
          rw down (hand_back-Quiet g p t probe (record r { world = (g.unavailable t r.world).1 }) h)
      | inr up ↦ rw up (take_slot-Quiet (record r { world = (g.unavailable t r.world).1 }) h)
    ]

  skip_tier-Quiet :
      (t : Target F) (forced : Bool) (until : Option Time) (r : Run F W)
      → Quiet r
      → Quiet (skip_tier t forced until r)
  unfolding skip_tier
  skip_tier-Quiet t true until r h = h
  skip_tier-Quiet t false none r h = h
  skip_tier-Quiet t false (some at) r h = h

  ask_breaker-Quiet :
      (t : Target F) (forced : Bool) (r : Run F W)
      → Quiet r
      → FlowQuiet (ask_breaker g p t forced r)
  unfolding ask_breaker
  ask_breaker-Quiet t forced r h =
      let (adm, w) = g.admit forced (key_of g p t) (settings_of g p t) r.world in
      let r' = note (admission (key_of g p t) forced adm.probe) (record r { world = w }) in
      let asked : held r'.log ≡ some (probing adm.probe (key_of g p t)) = ground arith in
      elim (Bool-cases adm.skip) [
        | inl skipped ↦
            let alone : adm.probe ≡ false =
              sound.skip-no_probe forced (key_of g p t) (settings_of g p t) r.world skipped in
            rw skipped (skip_tier-Quiet t forced adm.open_until r' (ground arith))
        | inr admitted ↦ rw admitted (check_mark-Quiet t adm.probe forced r' asked)
      ]

  try_target-Quiet :
      (t : Target F) (forced : Bool) (r : Run F W) → Quiet r → FlowQuiet (try_target g p t forced r)
  unfolding try_target
  try_target-Quiet t forced r h = elim (Bool-cases (g.registered t.provider)) [
    | inr missing ↦ rw missing h
    | inl known ↦ elim (Option-cases (g.supports t.provider)) [
      | inl capable ↦
          rw (known, capable) (ask_breaker-Quiet t forced (record r { target = some t }) h)
      | inr (err, incapable) ↦ rw (known, incapable) h
    ]
  ]

  visit-Quiet :
      (floor forced : Option ℕ) (t : Target F) (r : Run F W)
      → Quiet r
      → FlowQuiet (visit g p floor forced t r)
  unfolding visit
  visit-Quiet floor forced t r h =
      elim (Bool-cases (below floor t.tier || not_forced forced t.tier r.forced_call)) [
        | inl passed ↦ rw passed h
        | inr tried ↦ rw tried (try_target-Quiet t (is_some forced) r h)
      ]

module _ {F W : Type 0} ⦃fl : Float F⦄ (g : Gateway F W) (sound : IsSound g) (p : Plan F) where
  -- However a request ends, it has used the breaker, the slots and the providers in order, and holds
  -- nothing at the end: a target is called only while a slot of its provider is held, every slot is
  -- released, and every probe that the breaker let through is resolved before anything else is asked,
  -- by one recorded outcome of its own tier or by being handed back to it; an outcome recorded as
  -- no probe's is one of an attempt that held none.
  pub execute_plan-Quiet :
      (floor : Option ℕ) (w : W) → held (execute_plan g p floor w).run.log ≡ some nothing_held
  execute_plan-Quiet floor w =
      execute_plan-holds g p floor Quiet (λ res. Quiet res.run)
        (λ forced. record {
          visit-keeps = λ t r h. visit-Quiet g sound p floor forced t r h;
          world-keeps = λ r w busy h. h;
          failure-holds = λ r err h. h;
        })
        w refl
