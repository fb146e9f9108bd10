-- ===== src/Breaker/Reports.antt =====
-- internal/breaker/breaker.go, `Record` and `Release`: what is stored and what is reported.
use ipsupport_airllm.Base.{
  ℕ, ◌≤◌, ◌≡◌, refl, ap, ◌∙◌, inl, inr, arith, Bool, true, false, none, some, [], ◌∷◌, ◌++◌,
  if◌then◌else◌, not, subst, Bool-cases, Option-cases,
}
use ipsupport_airllm.Base.Float.{Float}
use ipsupport_airllm.Base.Clock.{Time}
use ipsupport_airllm.Base.Dict.{Dict, lookup-delete_self}
use ipsupport_airllm.Breaker.Types.{Settings, Key, key_eq, Transition, Record, zero_record}
use ipsupport_airllm.Breaker.Machine.{record_step}
use ipsupport_airllm.Breaker.Stores.{
  Codec, contended, Access, Breaker, mem_load, redis_load, redis_update, use_remote, emit, load,
  remote_ok, remote_failed, update, update_attempts,
}
use ipsupport_airllm.Breaker.Ops.{record_end, record_outcome, release, release_loaded}
use ipsupport_airllm.Breaker.Probes.{kept}
use ipsupport_airllm.Breaker.Races.{after_races, Settled, redis_update-Settled}
use ipsupport_airllm.Breaker.Local.{
  changed, update_local_lem, mem_update-kept, reports, emit_some-reports,
}

module _ {F Raw : Type 0} ⦃fl : Float F⦄ (codec : Codec Raw) (k : Key) (a : Access Raw)
    (set : Settings F) (now : Time) where
  record_on :
      (bad probe : Bool) (b : Breaker F Raw)
      → set.enabled ≡ true
      → record_outcome codec k a set now bad probe b
        ≡ record_end (update codec a k (record_step k set now bad probe) none b)
  unfolding record_outcome
  record_on bad probe b on =
      ap
        (λ e.
          if not e
          then b
          else record_end (update codec a k (record_step k set now bad probe) none b))
        on

  -- Without Redis the outcome of an attempt is recorded by one run of the closure on the replica's
  -- own record, every other tier keeps its record, and the closure's transition, if any, is reported.
  pub record_local :
      (bad probe : Bool) (j : Key) (b : Breaker F Raw)
      → set.enabled ≡ true
      → use_remote a b ≡ false
      → let res = record_outcome codec k a set now bad probe b in
        let step = record_step k set now bad probe (mem_load k b.local) in
        (mem_load j res.local ≡ changed k (kept step.0 (mem_load k b.local)) j b.local)
        × (res.observed ≡ b.observed ++ reports step.1)
  record_local bad probe j b on h =
      let (same, out) = mem_update-kept k j (record_step k set now bad probe) b.local in
      rw
        (
          record_on bad probe b on,
          update_local_lem codec k a (record_step k set now bad probe) none b h,
        )
        (rw emit_some-reports (same, ap (λ t. b.observed ++ reports t) out))

  -- When `Record` gives up because every transaction lost its race, Redis holds what the other
  -- replicas wrote and nothing of the outcome, and the local state is untouched; yet the transition
  -- that the last run of the closure computed is reported to the observer.
  pub record_contended :
      (bad probe : Bool) (b : Breaker F Raw) (db : Dict Key Raw) (t : Transition)
      → set.enabled ≡ true
      → use_remote a b ≡ true
      → redis_update codec k
          (record_step k set now bad probe)
          a.attempts
          update_attempts
          0
          b.redis
          none
        ≡ (some contended, db, some t)
      → let res = record_outcome codec k a set now bad probe b in
        ((j : ℕ) × (j ≤ 5) × (res.redis ≡ after_races k a.attempts 0 j b.redis))
        × (res.local ≡ b.local)
        × (res.observed ≡ b.observed ++ (t ∷ []))
  unfolding update emit
  record_contended bad probe b db t on h gave_up =
      let settled : Settled codec k (record_step k set now bad probe) a.attempts 5 0 b.redis
          (some contended, db, some t) =
        subst (Settled codec k (record_step k set now bad probe) a.attempts 5 0 b.redis) gave_up (
          redis_update-Settled codec k (record_step k set now bad probe) a.attempts 5 0 b.redis
            none) in
      elim (Bool-cases a.ended) [
        | inl gone ↦ rw (record_on bad probe b on, h, gave_up, gone) (settled, refl, refl)
        | inr live ↦ rw (record_on bad probe b on, h, gave_up, live) (settled, refl, refl)
      ]

module _ {F Raw : Type 0} (codec : Codec Raw) (k : Key) (a a' : Access Raw) where
  release_loaded-forgets :
      (r : Record) (b : Breaker F Raw)
      → (release_loaded codec k a' r b).1 ≡ none
      → (mem_load k (release_loaded codec k a' r b).0.local ≡ zero_record)
        × (b.has_remote ≡ true
            → redis_load codec k (release_loaded codec k a' r b).0.redis ≡ zero_record)
  unfolding release_loaded emit mem_load redis_load
  release_loaded-forgets r b e =
      ground (arith, lookup-delete_self k b.local, lookup-delete_self k b.redis)

  load-has_remote : (b : Breaker F Raw) → (load codec a k b).0.has_remote ≡ b.has_remote
  unfolding load remote_ok remote_failed
  load-has_remote b = ground arith

  -- With Redis, a release that reports no error leaves no record of the tier, neither in this replica nor in
  -- Redis: every replica finds it closed, with no trip in its history.
  pub release-forgets :
      (b : Breaker F Raw)
      → b.has_remote ≡ true
      → (release codec k a a' b).1 ≡ none
      → let b' = (release codec k a a' b).0 in
        (mem_load k b'.local ≡ zero_record) × (redis_load codec k b'.redis ≡ zero_record)
  unfolding release
  release-forgets b remote e = elim (Option-cases (load codec a k b).1) [
    | inl gone ↦ absurd (ground arith)
    | inr (r, found) ↦
        let (here, there) =
          release_loaded-forgets r (load codec a k b).0 (rw (found, release) at e) in
        rw (found, release) (here, there (load-has_remote b ∙ remote))
  ]
