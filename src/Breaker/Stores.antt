-- ===== src/Breaker/Stores.antt =====
-- memStore, redisStore and the choice between them (`useRemote`, `load`, `update`). Redis and the
-- JSON codec are not the program's: what Redis answers at each access is an argument, and the
-- codec is a parameter. A closure runs against whatever value the store holds at that moment.
use mathlib.Core.Option
use ipsupport_airllm.Base.{
  ℕ, zero, suc, ◌+◌, ◌*◌, Bool, true, ◌&&◌, Option, none, some, List, [], ◌++◌, ◌∷◌, ltb,
  if◌then◌else◌,
}
use ipsupport_airllm.Base.Clock.{Time, Duration, second}
use ipsupport_airllm.Base.Dict.{Dict, lookup, insert, delete}
use ipsupport_airllm.Breaker.Types.{Settings, Key, key_eq, Transition, Record, zero_record}

-- `json.Marshal` and `json.Unmarshal` of a record: what was filled in, and whether it parsed.
pub record Codec (Raw : Type 0) : Type 0 where
  pub marshal : Record → Raw
  pub unmarshal : Raw → Record × Bool

pub data Error : Type 0 where
  redis_failed contended ctx_ended : Error

-- What becomes of one WATCH transaction. `loses v`: another replica wrote `v` (`none`: the key
-- is gone) between this replica's GET and its EXEC. `unheard`: Redis carries out the EXEC, and its
-- answer is lost or comes too late.
pub data Attempt (Raw : Type 0) : Type 0 where
  get_fails exec_fails unheard commits : Attempt Raw
  loses : Option Raw → Attempt Raw

-- One access to the shared state: the wall clock when it starts and when it fails, whether the
-- caller's context has ended by then, whether a GET or DEL is answered, and the fate of each
-- transaction.
pub record Access (Raw : Type 0) : Type 0 where
  pub wall : Time
  pub failed_at : Time
  pub ended : Bool
  pub answers : Bool
  pub attempts : ℕ → Attempt Raw

-- `Breaker`, with the shared Redis value and the transitions that were observed. `remote_down_till`
-- is `none` for the zero time.
pub record Breaker (F Raw : Type 0) : Type 0 where
  pub has_remote : Bool
  pub local : Dict Key Record
  pub redis : Dict Key Raw
  pub remote_down_till : Option Time
  pub seen : Dict Key (Settings F × Time)
  pub observed : List Transition

abbrev pub update_attempts : ℕ
update_attempts = 5

abbrev pub remote_retry_after : Duration
remote_retry_after = 5 * second

unfoldable pub mem_load : Key → Dict Key Record → Record
mem_load k m = Option.get_or (lookup k m) zero_record

unfoldable pub mem_update :
    {O : Type 0} → Key → (Record → Option Record × O) → Dict Key Record → Dict Key Record × O
unfolding mem_load
mem_update k fn m =
    let (r', out) = fn (mem_load k m) in (elim r' [ none ↦ m | some r ↦ insert k r m ], out)

-- A replica's write of the whole value, or its removal.
abbrev pub put_raw : {Raw : Type 0} → Key → Option Raw → Dict Key Raw → Dict Key Raw
put_raw k none db = delete k db
put_raw k (some v) db = insert k v db

module _ {Raw : Type 0} (codec : Codec Raw) (k : Key) where
  unfoldable pub redis_load : Dict Key Raw → Record
  redis_load db = elim (lookup k db) [
    | none ↦ zero_record
    | some raw ↦ let (r, parsed) = codec.unmarshal raw in if parsed then r else zero_record
  ]

  -- What the transaction's GET leaves in `r`: a value that does not parse fills what it can.
  unfoldable pub redis_read : Dict Key Raw → Record
  redis_read db = elim (lookup k db) [ none ↦ zero_record | some raw ↦ (codec.unmarshal raw).0 ]

  module _ {O : Type 0} (fn : Record → Option Record × O) where
    pub data Watched : Type 0 where
      done failed lost : Dict Key Raw → O → Watched

    unfoldable pub finish : Attempt Raw → Dict Key Raw → Record → O → Watched
    finish (loses v) db r out = lost (put_raw k v db) out
    finish exec_fails db r out = failed db out
    finish unheard db r out = failed (insert k (codec.marshal r) db) out
    finish _ db r out = done (insert k (codec.marshal r) db) out

    -- One `Watch`: GET, the closure, and EXEC if it asks for a write.
    unfoldable pub watch : Attempt Raw → Dict Key Raw → O → Watched
    unfolding redis_read finish
    watch get_fails db out = failed db out
    watch a db _ =
        let (r', out) = fn (redis_read db) in
        elim r' [ none ↦ done db out | some r ↦ finish a db r out ]

    -- The loop of `redisStore.update`: the tries left, the number of the present one.
    unfoldable pub redis_update :
        (ℕ → Attempt Raw) → ℕ → ℕ → Dict Key Raw → O → Option Error × Dict Key Raw × O
    unfolding watch
    redis_update attempts zero i db out = (some contended, db, out)
    redis_update attempts (suc n) i db out = elim (watch (attempts i) db out) [
      | done db' out' ↦ (none, db', out')
      | failed db' out' ↦ (some redis_failed, db', out')
      | lost db' out' ↦ redis_update attempts n (i + 1) db' out'
    ]

module _ {F Raw : Type 0} where
  unfoldable pub use_remote : Access Raw → Breaker F Raw → Bool
  use_remote a b =
      b.has_remote && elim b.remote_down_till [ none ↦ true | some till ↦ ltb till a.wall ]

  unfoldable pub remote_failed : Access Raw → Breaker F Raw → Breaker F Raw
  remote_failed a b = record b { remote_down_till = some (a.failed_at + remote_retry_after) }

  -- On recovery the local state is dropped.
  unfoldable pub remote_ok : Breaker F Raw → Breaker F Raw
  remote_ok b = elim b.remote_down_till [
    | none ↦ b
    | some _ ↦ record b { remote_down_till = none; local = [] }
  ]

  unfoldable pub emit : Transition → Breaker F Raw → Breaker F Raw
  emit t b = record b { observed = b.observed ++ (t ∷ []) }

  -- `load`: `none` is the context's error.
  unfoldable pub load : Codec Raw → Access Raw → Key → Breaker F Raw → Breaker F Raw × Option Record
  unfolding use_remote remote_failed remote_ok redis_load mem_load
  load codec a k b =
      if use_remote a b
      then if a.answers
        then (remote_ok b, some (redis_load codec k b.redis))
        else if a.ended
        then (b, none)
        else (remote_failed a b, some (mem_load k b.local))
      else (b, some (mem_load k b.local))

  abbrev update_local :
      {O : Type 0}
      → Key
      → (Record → Option Record × O)
      → Breaker F Raw
      → Breaker F Raw × Option Error × O
  update_local k fn b =
      let (local', out) = mem_update k fn b.local in (record b { local = local' }, none, out)

  -- `update`, from the end of the Redis transaction on.
  unfoldable pub settle :
      {O : Type 0}
      → Access Raw
      → Key
      → (Record → Option Record × O)
      → Option Error
      → O
      → Breaker F Raw
      → Breaker F Raw × Option Error × O
  unfolding remote_failed remote_ok mem_update
  settle a k fn none out b = (remote_ok b, none, out)
  settle a k fn (some contended) out b =
      if a.ended then (b, some ctx_ended, out) else (b, some contended, out)
  settle a k fn (some _) out b =
      if a.ended then (b, some ctx_ended, out) else update_local k fn (remote_failed a b)

  -- `update`: the closure's variables start as `out`.
  unfoldable pub update :
      {O : Type 0}
      → Codec Raw
      → Access Raw
      → Key
      → (Record → Option Record × O)
      → O
      → Breaker F Raw
      → Breaker F Raw × Option Error × O
  unfolding use_remote settle redis_update
  update codec a k fn out b =
      if use_remote a b
      then (let (err, db, out') =
            redis_update codec k fn a.attempts update_attempts 0 b.redis out in
          settle a k fn err out' (record b { redis = db }))
      else update_local k fn b
