-- ===== src/Breaker/Probes.antt =====
-- The single probe: which attempts at a tier that is not closed are let through.
use ipsupport_airllm.Base.{
  ℕ, ◌+◌, ◌≤◌, ◌<◌, ◌≡◌, refl, ◌⊎◌, inl, inr, arith, Bool, true, false, Option, none, some, List,
  [], ◌∷◌, All, if◌then◌else◌, ltb, leb,
}
use ipsupport_airllm.Base.Float.{Float}
use ipsupport_airllm.Base.Clock.{Time, unix_milli, from_milli}
use ipsupport_airllm.Breaker.Types.{Settings, Key, closed, opened, half_open, Record}
use ipsupport_airllm.Breaker.Machine.{lease, admit_step, record_step, abandon_step, trip_cooldown}

-- The record that an operation leaves.
abbrev pub kept : Option Record → Record → Record
kept none r = r
kept (some r') r = r'

-- What a tier's record goes through: an attempt that asks to be let in, forced or not, and the
-- outcome of an attempt that was not the probe.
pub data Event : Type 0 where
  asks : Bool → Time → Event
  outcome : Bool → Time → Event

abbrev pub at : Event → Time
at (asks force now) = now
at (outcome failed now) = now

module _ {F : Type 0} ⦃fl : Float F⦄ (k : Key) (set : Settings F) where
  -- The record after an event, and whether a probe was let through.
  unfoldable pub step : Event → Record → Record × ℕ
  step (asks force now) r =
      let (r', (adm, _)) = admit_step k set now force r in (kept r' r, if adm.probe then 1 else 0)
  step (outcome failed now) r = (kept (record_step k set now failed false r).0 r, 0)

  unfoldable pub probes : List Event → Record → ℕ
  probes [] r = 0
  probes (e ∷ es) r = let (r', n) = step e r in n + probes es r'

  -- While a probe's lease runs, nothing is let through and nothing is changed.
  step_leased :
      (e : Event) (r : Record)
      → r.state_tag ≡ half_open
      → unix_milli (at e) < r.probe_until
      → step e r ≡ (r, 0)
  unfolding step admit_step record_step
  step_leased (asks force now) r h lt = ground arith
  step_leased (outcome failed now) r h lt = ground arith

  All-lease :
      (t : Time) (e : Event) (es : List Event) (r : Record)
      → r.probe_until ≡ unix_milli (at e + lease set)
      → (t ≤ at e) × (unix_milli (at e) < unix_milli (t + lease set))
      → All (λ e'. (t ≤ at e') × (unix_milli (at e') < unix_milli (t + lease set))) es
      → All (λ e'. unix_milli (at e') < r.probe_until) es
  All-lease t e [] r p h all = tt
  All-lease t e (e' ∷ es) r p h all = (omega arith, All-lease t e es r p h all.1)

  probes_leased :
      (es : List Event) (r : Record)
      → r.state_tag ≡ half_open
      → All (λ e. unix_milli (at e) < r.probe_until) es
      → probes es r ≡ 0
  unfolding probes
  probes_leased [] r h all = refl
  probes_leased (e ∷ es) r h all =
      rw (step_leased e r h all.0) (omega (arith, probes_leased es r h all.1))

  -- An event lets nothing through, or starts a lease.
  step_cases :
      (e : Event) (r : Record)
      → ((step e r).1 ≡ 0)
        ⊎ (((step e r).1 ≡ 1)
            × ((step e r).0.state_tag ≡ half_open)
            × ((step e r).0.probe_until ≡ unix_milli (at e + lease set)))
  unfolding step admit_step
  step_cases (asks force now) r = ground arith
  step_cases (outcome failed now) r = inl refl

  -- However many attempts ask for a tier, forced or not, and whatever the outcomes of the attempts
  -- that are not its probe, at most one probe is let through in a span no longer than the lease,
  -- from any stored record.
  pub probes-le-one :
      (t : Time) (es : List Event) (r : Record)
      → All (λ e. (t ≤ at e) × (unix_milli (at e) < unix_milli (t + lease set))) es
      → probes es r ≤ 1
  unfolding probes
  probes-le-one t [] r all = omega arith
  probes-le-one t (e ∷ es) r all = elim (step_cases e r) [
    | inl none_let ↦ rw none_let (omega (arith, probes-le-one t es (step e r).0 all.1))
    | inr (one_let, held, until) ↦ rw one_let (
        omega (
          arith,
          probes_leased es (step e r).0 held (All-lease t e es (step e r).0 until all.0 all.1),
        ))
  ]

module _ {F : Type 0} (k : Key) (set : Settings F) where
  -- An open tier turns every attempt that is not forced away until its cooldown ends, and tells it
  -- when that is; from that moment on one attempt is let through as the probe.
  pub admit_step_open :
      (now : Time) (r : Record)
      → r.state_tag ≡ opened
      → let adm = (admit_step k set now false r).1.0 in
        (adm.skip ≡ ltb (unix_milli now) r.open_until)
        × (adm.probe ≡ leb r.open_until (unix_milli now))
        × (adm.open_until
            ≡ (if ltb (unix_milli now) r.open_until then some (from_milli r.open_until) else none))
  unfolding admit_step
  admit_step_open now r h = ground arith

  -- A probe forced on an open tier and handed back before the cooldown ends leaves the tier open
  -- for the rest of it: nothing is changed but the lease, which is gone.
  pub force-abandon :
      (now later : Time) (r : Record)
      → r.state_tag ≡ opened
      → unix_milli later < r.open_until
      → abandon_step later (kept (admit_step k set now true r).0 r)
        ≡ some (record r { probe_until = 0 })
  unfolding admit_step abandon_step
  force-abandon now later r h lt = ground arith

  -- A probe handed back after the cooldown leaves the tier to the next attempt, whenever it comes.
  pub abandon-probe_again :
      (now later : Time) (force : Bool) (r : Record)
      → r.state_tag ≡ half_open
      → r.open_until ≤ unix_milli now
      → (admit_step k set later force (kept (abandon_step now r) r)).1.0.probe ≡ true
  unfolding admit_step abandon_step
  abandon-probe_again now later force r h le = ground arith

module _ {F : Type 0} ⦃fl : Float F⦄ (k : Key) (set : Settings F) (now : Time) (r : Record) where
  -- The probe's outcome decides a half-open tier: a success closes it and keeps the trips that it
  -- has made, a failure opens it again for the cooldown of one trip more; the outcome of any other
  -- attempt changes nothing.
  pub record_step_probe :
      (failed : Bool)
      → r.state_tag ≡ half_open
      → ((kept (record_step k set now false true r).0 r).state_tag ≡ closed)
        × ((kept (record_step k set now false true r).0 r).trips ≡ r.trips)
        × ((kept (record_step k set now true true r).0 r).state_tag ≡ opened)
        × ((kept (record_step k set now true true r).0 r).trips ≡ r.trips + 1)
        × ((kept (record_step k set now true true r).0 r).open_until
            ≡ unix_milli (now + trip_cooldown set (r.trips + 1)))
        × (record_step k set now failed false r ≡ (none, none))
  unfolding record_step
  record_step_probe failed h =
      (ground arith, ground arith, ground arith, ground arith, ground arith, ground arith)
