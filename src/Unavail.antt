-- ===== src/Unavail.antt =====
-- internal/unavail/unavail.go: how long a (provider, upstream model) pair is skipped after a failure.
-- Redis and its JSON codec are parameters: an `Access` says whether each command is answered.
use Prim.Native.Nat.{min}
use ipsupport_airllm.Base.{
  ℕ, String, ◌+◌, ◌-◌, ◌*◌, Bool, true, false, ◌&&◌, Option, none, some, ltb, if◌then◌else◌, Eq,
  ◌==◌, string_eq, ◌≡◌, ◌↔◌, arith,
}
use ipsupport_airllm.Base.Clock.{
  Time, Duration, millisecond, minute, unix_milli, from_milli, milliseconds,
}
use ipsupport_airllm.Base.Dict.{Dict, lookup, insert, delete}
pub mod Laws
pub mod Backoff

pub record Key : Type 0 where
  pub provider : String
  pub upstream_model : String

abbrev pub key_equal : Key → Key → Bool
key_equal a b = a.provider == b.provider && a.upstream_model == b.upstream_model

pub key_equal_iff : (a b : Key) → (key_equal a b ≡ true) ↔ (a ≡ b)
key_equal_iff a b = ground (
  arith,
  string_eq.equal_iff a.provider b.provider,
  string_eq.equal_iff a.upstream_model b.upstream_model,
)

instance abbrev pub key_eq : Eq Key
key_eq = record { equal = key_equal; equal_iff = key_equal_iff }

pub record Mark : Type 0 where
  pub until_ms : ℕ
  pub backoff_ms : ℕ

-- `json.Marshal`, and `json.Unmarshal` with its failure.
pub record Codec (Raw : Type 0) : Type 0 where
  pub marshal : Mark → Raw
  pub unmarshal : Raw → Option Mark

-- Whether Redis answers a read and a write, and Redis's own clock.
pub record Access : Type 0 where
  pub reads : Bool
  pub writes : Bool
  pub redis_now : Time

-- A value in Redis and when it expires there
pub record Entry (Raw : Type 0) : Type 0 where
  pub value : Raw
  pub expires : Time

abbrev pub record_ttl : Duration
record_ttl = 60 * minute

pub record Store (Raw : Type 0) : Type 0 where
  pub has_redis : Bool
  pub redis : Dict Key (Entry Raw)
  pub local : Dict Key Mark

-- `*retryAfter`, else twice the last backoff up to the ceiling, else the initial one.
unfoldable pub next_backoff : Option Duration → Option Mark → Duration → Duration → Duration
next_backoff (some after) prev initial ceiling = after
next_backoff none none initial ceiling = initial
next_backoff none (some prev) initial ceiling =
    let twice = prev.backoff_ms * millisecond * 2 in
    if ltb 0 prev.backoff_ms
    then if ltb 0 ceiling && ltb ceiling twice then ceiling else twice
    else initial

unfoldable pub mark_of : Time → Duration → Mark
mark_of now dur = record { until_ms = unix_milli (now + dur); backoff_ms = milliseconds dur }

-- `Check`, from the loaded mark on: the time left, `none` for "do not skip".
unfoldable pub left : Time → Option Mark → Option Duration
left now none = none
left now (some r) =
    if ltb now (from_milli r.until_ms) then some (from_milli r.until_ms - now) else none

module _ {Raw : Type 0} (codec : Codec Raw) (a : Access) (k : Key) where
  unfoldable pub load : Store Raw → Option Mark
  load s =
      if s.has_redis && a.reads
      then elim (lookup k s.redis) [
        | none ↦ none
        | some e ↦ if ltb a.redis_now e.expires then codec.unmarshal e.value else none
      ]
      else lookup k s.local

  unfoldable pub store : Mark → Store Raw → Store Raw
  store r s =
      let s' = record s { local = insert k r s.local } in
      if s.has_redis && a.writes
      then record s' {
        redis =
            insert k (record { value = codec.marshal r; expires = a.redis_now + record_ttl })
              s.redis;
      }
      else s'

  unfoldable pub check : Time → Store Raw → Option Duration
  check now s = left now (load s)

  unfoldable pub mark :
      Time → Option Duration → Duration → Duration → Store Raw → Store Raw × Duration
  mark now retry_after initial ceiling s =
      let dur = next_backoff retry_after (load s) initial ceiling in
      (store (mark_of now dur) s, dur)

module _ {Raw : Type 0} (a : Access) (k : Key) where
  unfoldable pub clear : Store Raw → Store Raw
  clear s =
      let s' = record s { local = delete k s.local } in
      if s.has_redis && a.writes then record s' { redis = delete k s.redis } else s'
