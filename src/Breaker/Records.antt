-- ===== src/Breaker/Records.antt =====
-- What holds of every stored record, and the two rules that trip a closed tier.
use ipsupport_airllm.Base.{
  ◌+◌, ◌≤◌, ◌<◌, ◌≡◌, refl, ◌⊎◌, inl, inr, arith, Bool, true, false, none, List, [], ◌∷◌, length,
}
use ipsupport_airllm.Base.Float.{Float}
use ipsupport_airllm.Base.Clock.{Time, milliseconds}
use ipsupport_airllm.Breaker.Types.{
  Settings, Key, State, unset, closed, opened, half_open, Record, zero_record,
}
use ipsupport_airllm.Breaker.Machine.{state, admit_step, record_step, abandon_step, next_trips}
use ipsupport_airllm.Breaker.Cooldown.{trip_cooldown-le}
use ipsupport_airllm.Breaker.Probes.{kept}

-- What holds of a record in a state: a closed one has no cooldown and no probe, the others have
-- tripped and count nothing.
abbrev pub Shape : State → Record → Type 0
Shape unset r = (r.open_until ≡ 0) × (r.probe_until ≡ 0)
Shape closed r = (r.open_until ≡ 0) × (r.probe_until ≡ 0)
Shape opened r = (0 < r.trips) × (r.probe_until ≡ 0) × (r.consecutive ≡ 0) × (r.window_reqs ≡ 0)
Shape half_open r = (0 < r.trips) × (r.consecutive ≡ 0) × (r.window_reqs ≡ 0)

-- What holds of a record that the breaker wrote under the settings.
pub record IsWritten {F : Type 0} (set : Settings F) (r : Record) : Type 0 where
  pub shape : Shape r.state_tag r
  pub window_counts : r.window_fails ≤ r.window_reqs
  pub run_short : (set.failures ≡ 0) ⊎ (r.consecutive < set.failures)
  pub cooldown_capped : (set.max_cooldown ≡ 0) ⊎ (r.cooldown_ms ≤ milliseconds set.max_cooldown)

pub zero_record-IsWritten : {F : Type 0} (set : Settings F) → IsWritten set zero_record
zero_record-IsWritten set = ground arith

module _ {F : Type 0} ⦃fl : Float F⦄ (k : Key) (set : Settings F) (now : Time) (r : Record) where
  admit_step-IsWritten :
      (force : Bool) → IsWritten set r → IsWritten set (kept (admit_step k set now force r).0 r)
  unfolding admit_step
  admit_step-IsWritten force h = ground arith

  abandon_step-IsWritten : IsWritten set r → IsWritten set (kept (abandon_step now r) r)
  unfolding abandon_step
  abandon_step-IsWritten h = ground arith

  record_step-IsWritten :
      (failed probe : Bool)
      → IsWritten set r
      → IsWritten set (kept (record_step k set now failed probe r).0 r)
  unfolding record_step
  record_step-IsWritten failed probe h = ground (arith, trip_cooldown-le set (next_trips r set now))

-- What can be done to a stored record.
pub data Operation : Type 0 where
  admits : Bool → Operation
  records : Bool → Bool → Operation
  abandons : Operation

module _ {F : Type 0} ⦃fl : Float F⦄ (k : Key) (set : Settings F) where
  abbrev pub operate : Operation → Time → Record → Record
  operate (admits force) now r = kept (admit_step k set now force r).0 r
  operate (records failed probe) now r = kept (record_step k set now failed probe r).0 r
  operate abandons now r = kept (abandon_step now r) r

  unfoldable pub run_ops : List (Operation × Time) → Record → Record
  run_ops [] r = r
  run_ops ((op, now) ∷ ops) r = run_ops ops (operate op now r)

  operate-IsWritten :
      (op : Operation) (now : Time) (r : Record)
      → IsWritten set r
      → IsWritten set (operate op now r)
  operate-IsWritten (admits force) now r h = admit_step-IsWritten k set now r force h
  operate-IsWritten (records failed probe) now r h =
      record_step-IsWritten k set now r failed probe h
  operate-IsWritten abandons now r h = abandon_step-IsWritten k set now r h

  -- Whatever is done to a record and in whatever order, at whatever times, it stays well formed: a
  -- closed tier has no cooldown and no probe; a tier that is open or probing has tripped and counts
  -- nothing; a window has no more failures than requests; a run of failures is shorter than what
  -- trips (if that is set); no cooldown is over the cap (if there is one).
  pub run_ops-IsWritten :
      (ops : List (Operation × Time)) (r : Record) → IsWritten set r → IsWritten set (run_ops ops r)
  unfolding run_ops
  run_ops-IsWritten [] r h = h
  run_ops-IsWritten ((op, now) ∷ ops) r h =
      run_ops-IsWritten ops (operate op now r) (operate-IsWritten op now r h)

module _ {F : Type 0} ⦃fl : Float F⦄ (k : Key) (set : Settings F) where
  -- Failures one after another, at the given times.
  unfoldable pub fail_run : List Time → Record → Record
  fail_run [] r = r
  fail_run (now ∷ ts) r = fail_run ts (kept (record_step k set now true false r).0 r)

  fail_run-opened : (ts : List Time) (r : Record) → r.state_tag ≡ opened → fail_run ts r ≡ r
  unfolding fail_run record_step
  fail_run-opened [] r h = refl
  fail_run-opened (now ∷ ts) r h =
      let e : kept (record_step k set now true false r).0 r ≡ r = ground arith in
      rw e (fail_run-opened ts r h)

  fail_step :
      (now : Time) (r : Record)
      → state r ≡ closed
      → let r' = kept (record_step k set now true false r).0 r in
        (r'.state_tag ≡ opened)
        ⊎ ((state r' ≡ closed)
            × (r'.consecutive ≡ r.consecutive + 1)
            × ((set.failures ≡ 0) ⊎ (r'.consecutive < set.failures)))
  unfolding record_step
  fail_step now r h = ground arith

  fail_step_slow :
      (now : Time) (r : Record)
      → state r ≡ closed
      → set.min_requests ≡ 0
      → r.consecutive + 1 < set.failures
      → let r' = kept (record_step k set now true false r).0 r in
        (state r' ≡ closed) × (r'.consecutive ≡ r.consecutive + 1)
  unfolding record_step
  fail_step_slow now r h rate lt = ground arith

  -- A run of failures on a closed tier, no success between them, has opened the tier once it counts
  -- `failures`, whatever the error rate says and whenever they come.
  pub fail_run-opens :
      (ts : List Time) (r : Record)
      → 0 < set.failures
      → state r ≡ closed
      → r.consecutive < set.failures
      → set.failures ≤ r.consecutive + length ts
      → (fail_run ts r).state_tag ≡ opened
  unfolding fail_run
  fail_run-opens [] r pos c short long = absurd (omega arith)
  fail_run-opens (now ∷ ts) r pos c short long = elim (fail_step now r c) [
    | inl tripped ↦
        rw (fail_run-opened ts (kept (record_step k set now true false r).0 r) tripped) tripped
    | inr (still, more, below) ↦
        fail_run-opens ts (kept (record_step k set now true false r).0 r) pos still (ground arith)
          (omega arith)
  ]

  -- With the error-rate rule off, a shorter run leaves the tier closed and counts every failure.
  pub fail_run-stays :
      (ts : List Time) (r : Record)
      → set.min_requests ≡ 0
      → state r ≡ closed
      → r.consecutive + length ts < set.failures
      → (state (fail_run ts r) ≡ closed) × ((fail_run ts r).consecutive ≡ r.consecutive + length ts)
  unfolding fail_run
  fail_run-stays [] r rate c short = (c, omega arith)
  fail_run-stays (now ∷ ts) r rate c short =
      let (still, more) = fail_step_slow now r c rate (omega arith) in
      let (fin, count) =
        fail_run-stays ts (kept (record_step k set now true false r).0 r) rate still
          (omega arith) in
      (fin, omega arith)

module _ {F : Type 0} ⦃fl : Float F⦄ (k : Key) (set : Settings F) (now : Time) (r : Record) where
  -- A success on a closed tier never trips it, ends its run of failures and is counted in the
  -- window, which starts anew when it is over.
  pub record_step-success :
      state r ≡ closed
      → let r' = kept (record_step k set now false false r).0 r in
        (state r' ≡ closed)
        × (r'.consecutive ≡ 0)
        × (r'.window_reqs ≤ r.window_reqs + 1)
        × (r'.window_fails ≤ r.window_fails)
        × ((record_step k set now false false r).1 ≡ none)
  unfolding record_step
  record_step-success c = ground arith
