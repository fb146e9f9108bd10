-- ===== src/Breaker/Skips.antt =====
-- internal/breaker/breaker.go, `admit`: whatever becomes of the race for the probe.
use ipsupport_airllm.Base.{
  ℕ, zero, suc, ◌+◌, ◌≡◌, refl, arith, Bool, false, ◌&&◌, Option, none, some, Bool-cases, inl, inr,
}
use ipsupport_airllm.Base.Clock.{Time}
use ipsupport_airllm.Base.Dict.{Dict}
use ipsupport_airllm.Breaker.Types.{Settings, Key, Admission, admitted, Transition, Record}
use ipsupport_airllm.Breaker.Machine.{admit_step, skip}
use ipsupport_airllm.Breaker.Stores.{
  Codec, Error, Attempt, get_fails, exec_fails, unheard, commits, loses, Watched, done, failed,
  lost, redis_failed, contended, ctx_ended, Access, Breaker, mem_update, redis_read, watch,
  redis_update, settle, update, use_remote, load,
}
use ipsupport_airllm.Breaker.Ops.{race_end, race, admit_loaded, admit, see}

module _ {Raw O : Type 0} (codec : Codec Raw) (k : Key) (fn : Record → Option Record × O)
    (P : O → Type 0) (runs : (r : Record) → P (fn r).1) where
  abbrev WatchedHolds : Watched codec k fn → Type 0
  WatchedHolds (done db out) = P out
  WatchedHolds (failed db out) = P out
  WatchedHolds (lost db out) = P out

  watch-holds :
      (a : Attempt Raw) (db : Dict Key Raw) (out : O)
      → P out
      → WatchedHolds (watch codec k fn a db out)
  unfolding watch
  watch-holds get_fails db out h = h
  watch-holds exec_fails db out h = ground (arith, runs (redis_read codec k db))
  watch-holds unheard db out h = ground (arith, runs (redis_read codec k db))
  watch-holds commits db out h = ground (arith, runs (redis_read codec k db))
  watch-holds (loses v) db out h = ground (arith, runs (redis_read codec k db))

  redis_update-holds :
      (attempts : ℕ → Attempt Raw) (n i : ℕ) (db : Dict Key Raw) (out : O)
      → P out
      → P (redis_update codec k fn attempts n i db out).2
  unfolding redis_update
  redis_update-holds attempts zero i db out h = h
  redis_update-holds attempts (suc n) i db out h =
      after (watch codec k fn (attempts i) db out) (watch-holds (attempts i) db out h)
        (λ db' out' h'. redis_update-holds attempts n (i + 1) db' out' h')
    where
      after :
          (w : Watched codec k fn)
          → WatchedHolds w
          → ((db' : Dict Key Raw) (out' : O)
              → P out'
              → P (redis_update codec k fn attempts n (i + 1) db' out').2)
          → P
              (elim w as (λ _. Option Error × Dict Key Raw × O) [
                | done db' out' ↦ (none, db', out')
                | failed db' out' ↦ (some redis_failed, db', out')
                | lost db' out' ↦ redis_update codec k fn attempts n (i + 1) db' out'
              ]).2
      after (done db' out') q rest = q
      after (failed db' out') q rest = q
      after (lost db' out') q rest = rest db' out' q

  mem_update-holds : (m : Dict Key Record) → P (mem_update k fn m).1
  unfolding mem_update
  mem_update-holds m = runs _

  settle-holds :
      {F : Type 0} (a : Access Raw) (e : Option Error) (out : O) (b : Breaker F Raw)
      → P out
      → P (settle a k fn e out b).2
  unfolding settle
  settle-holds a none out b h = h
  settle-holds a (some contended) out b h = elim (Bool-cases a.ended) [
    | inl gone ↦ rw gone h
    | inr live ↦ rw live h
  ]
  settle-holds a (some redis_failed) out b h = elim (Bool-cases a.ended) [
    | inl gone ↦ rw gone h
    | inr live ↦ rw live (mem_update-holds _)
  ]
  settle-holds a (some ctx_ended) out b h = elim (Bool-cases a.ended) [
    | inl gone ↦ rw gone h
    | inr live ↦ rw live (mem_update-holds _)
  ]

  -- What every run of a closure leaves, and what its variables start as, is what an update leaves.
  pub update-holds :
      {F : Type 0} (a : Access Raw) (out : O) (b : Breaker F Raw)
      → P out
      → P (update codec a k fn out b).2
  unfolding update
  update-holds a out b h = elim (Bool-cases (use_remote a b)) [
    | inl remote ↦
        rw remote (settle-holds a _ _ _ (redis_update-holds a.attempts 5 0 b.redis out h))
    | inr here ↦ rw here (mem_update-holds b.local)
  ]

abbrev SkipsProbeless : Admission × Option Transition → Type 0
SkipsProbeless (adm, tr) = (adm.skip && adm.probe) ≡ false

module _ {F Raw : Type 0} (codec : Codec Raw) (k : Key) (a a' : Access Raw) (set : Settings F)
    (now : Time) where
  admit_step-Probeless :
      (force : Bool) (r : Record) → SkipsProbeless (admit_step k set now force r).1
  unfolding admit_step
  admit_step-Probeless force r = ground arith

  race-Probeless :
      (force : Bool) (b : Breaker F Raw)
      → ((race codec k a' set now force b).1.skip && (race codec k a' set now force b).1.probe)
        ≡ false
  unfolding race
  race-Probeless force b =
      ends (update codec a' k (admit_step k set now force) (admitted, none) b) (
        update-holds codec k (admit_step k set now force) SkipsProbeless
          (admit_step-Probeless force) a' (admitted, none) b refl)
    where
      ends :
          (res : Breaker F Raw × Option Error × (Admission × Option Transition))
          → SkipsProbeless res.2
          → ((race_end res).1.skip && (race_end res).1.probe) ≡ false
      ends (b', none, out) h = h
      ends (b', some contended, out) h = refl
      ends (b', some redis_failed, out) h = refl
      ends (b', some ctx_ended, out) h = refl

  admit_loaded-Probeless :
      (force : Bool) (bo : Breaker F Raw × Option Record)
      → ((admit_loaded codec k a' set now force bo).1.skip
          && (admit_loaded codec k a' set now force bo).1.probe)
        ≡ false
  unfolding admit_loaded skip
  admit_loaded-Probeless force (b, none) = refl
  admit_loaded-Probeless force (b, some r) = ground (arith, race-Probeless force b)

  -- Whatever Redis and the other replicas do, an attempt that is told to skip its tier holds no
  -- probe: there is nothing for it to hand back.
  pub admit-skip-probe :
      (force : Bool) (b : Breaker F Raw)
      → let adm = (admit codec k a a' set now force b).1 in (adm.skip && adm.probe) ≡ false
  unfolding admit
  admit-skip-probe force b =
      ground (arith, admit_loaded-Probeless force (load codec a k (see k set now b)))
