-- ===== src/Breaker/Ops.antt =====
-- The methods of `Breaker`. `now` is the breaker's clock; an `Access` is what Redis answers. A nil
-- breaker behaves as one whose settings are disabled, and is not modelled apart.
use ipsupport_airllm.Base.{
  ◌+◌, Bool, true, Option, none, some, [], ◌∷◌, ltb, not, ◌&&◌, if◌then◌else◌,
}
use ipsupport_airllm.Base.Float.{Float}
use ipsupport_airllm.Base.Clock.{Time}
use ipsupport_airllm.Base.Dict.{Dict, insert, delete}
use ipsupport_airllm.Breaker.Types.{
  Settings, Key, key_eq, closed, Admission, admitted, manual, Status, Transition, Record,
}
use ipsupport_airllm.Breaker.Machine.{
  ttl, state, is_closed, blocks, skip, admit_step, record_step, abandon_step, status_of,
}
use ipsupport_airllm.Breaker.Stores.{
  Codec, Error, redis_failed, contended, ctx_ended, Access, Breaker, remote_failed, emit, load,
  update,
}

-- The answer to a request whose record could not be changed.
abbrev pub on_update_error : Error → Admission
on_update_error contended = record admitted { skip = true }
on_update_error _ = admitted

abbrev pub emit_some : {F Raw : Type 0} → Option Transition → Breaker F Raw → Breaker F Raw
emit_some none b = b
emit_some (some t) b = emit t b

abbrev unit_fn : (Record → Option Record) → Record → Option Record × Unit {0}
unit_fn f r = (f r, tt)

-- What `admit` does with the outcome of its update.
abbrev pub race_end :
    {F Raw : Type 0}
    → Breaker F Raw × Option Error × (Admission × Option Transition)
    → Breaker F Raw × Admission
race_end (b, some e, out) = (b, on_update_error e)
race_end (b, none, (adm, tr)) = (emit_some tr b, adm)

-- `Record` reports its transition whatever became of the update.
abbrev pub record_end :
    {F Raw : Type 0} → Breaker F Raw × Option Error × Option Transition → Breaker F Raw
record_end (b, err, tr) = emit_some tr b

-- `b.seen.Store`
abbrev pub see : {F Raw : Type 0} → Key → Settings F → Time → Breaker F Raw → Breaker F Raw
see k set now b = record b { seen = insert k (set, now) b.seen }

module _ {F Raw : Type 0} (codec : Codec Raw) (k : Key) where
  -- `admit` from the race for the probe on.
  unfoldable pub race :
      Access Raw → Settings F → Time → Bool → Breaker F Raw → Breaker F Raw × Admission
  race a set now force b =
      race_end (update codec a k (admit_step k set now force) (admitted, none) b)

  -- `admit`, from the loaded record on.
  unfoldable pub admit_loaded :
      Access Raw
      → Settings F
      → Time
      → Bool
      → Breaker F Raw × Option Record
      → Breaker F Raw × Admission
  admit_loaded a set now force (b, none) = (b, admitted)
  admit_loaded a set now force (b, some r) =
      if is_closed (state r)
      then (b, admitted)
      else if blocks r now force
      then (b, skip r)
      else race a set now force b

  -- `admit`: the load, then the race.
  unfoldable pub admit :
      Access Raw → Access Raw → Settings F → Time → Bool → Breaker F Raw → Breaker F Raw × Admission
  admit a a' set now force b =
      if not set.enabled
      then (b, admitted)
      else admit_loaded a' set now force (load codec a k (see k set now b))

  -- `Record`
  unfoldable pub record_outcome :
      ⦃fl : Float F⦄ → Access Raw → Settings F → Time → Bool → Bool → Breaker F Raw → Breaker F Raw
  record_outcome a set now failed probe b =
      if not set.enabled
      then b
      else record_end (update codec a k (record_step k set now failed probe) none b)

  -- `AbandonProbe`
  unfoldable pub abandon_probe : Access Raw → Settings F → Time → Breaker F Raw → Breaker F Raw
  abandon_probe a set now b =
      if not set.enabled then b else (update codec a k (unit_fn (abandon_step now)) tt b).0

  -- `Status`: `none` is the context's error.
  unfoldable pub status :
      Access Raw → Settings F → Time → Breaker F Raw → Breaker F Raw × Option Status
  status a set now b =
      let (b', cur) = load codec a k b in
      (b', elim cur [ none ↦ none | some r ↦ some (status_of set now r) ])

  -- `Release`, once the record is loaded: whether it failed, and the state that it leaves.
  unfoldable pub release_loaded : Access Raw → Record → Breaker F Raw → Breaker F Raw × Option Error
  release_loaded a r b =
      let b₁ = record b { local = delete k b.local } in
      let b₂ = if b.has_remote then record b₁ { redis = delete k b.redis } else b₁ in
      let t : Transition = record {
        key = k;
        from = state r;
        to = closed;
        cause = manual;
        cooldown = 0;
        open_until = none;
      } in
      if b.has_remote && not a.answers
      then (remote_failed a b₁, some redis_failed)
      else (if is_closed (state r) then b₂ else emit t b₂, none)

  -- `Release`
  unfoldable pub release : Access Raw → Access Raw → Breaker F Raw → Breaker F Raw × Option Error
  release a a' b =
      let (b', cur) = load codec a k b in
      elim cur [ none ↦ (b', some ctx_ended) | some r ↦ release_loaded a' r b' ]

-- `Seen`: the keys kept, which are those that `fn` is called with.
unfoldable pub seen_kept :
    {F : Type 0} → Time → Dict Key (Settings F × Time) → Dict Key (Settings F × Time)
seen_kept now [] = []
seen_kept now ((k, (set, at)) ∷ rest) =
    let kept = seen_kept now rest in if ltb (at + ttl set) now then kept else (k, (set, at)) ∷ kept
