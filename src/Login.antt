-- ===== src/Login.antt =====
-- internal/auth/ratelimit.go: the lockout of a username after failed logins. Redis counts them under a
-- key made of the lower-case name, which is a `String` here; a counter without an expiry never goes.
use ipsupport_airllm.Base.{
  ℕ, String, string_eq, ◌+◌, ◌*◌, Bool, true, false, ◌&&◌, Option, none, some, ltb, leb, nat_eqb,
  if◌then◌else◌,
}
use ipsupport_airllm.Base.Clock.{Time, Duration, minute}
use ipsupport_airllm.Base.Dict.{Dict, lookup, insert, delete}
pub mod Lockout

abbrev pub login_max_attempts : ℕ
login_max_attempts = 10

abbrev pub login_lockout : Duration
login_lockout = 15 * minute

pub record Counter : Type 0 where
  pub count : ℕ
  pub until : Option Time

-- One access to Redis: its clock, and whether it answers the command (GET, INCR or DEL) and the EXPIRE
-- that may follow it.
pub record Access : Type 0 where
  pub now : Time
  pub answers : Bool
  pub expires : Bool

-- `LoginLimiter`, with what Redis holds.
pub record LoginLimiter : Type 0 where
  pub has_redis : Bool
  pub counters : Dict String Counter

abbrev expired : Time → Option Time → Bool
expired now none = false
expired now (some until) = leb until now

-- A counter that has not expired.
abbrev pub live : Time → Option Counter → Option Counter
live now none = none
live now (some c) = if expired now c.until then none else some c

abbrev pub count_of : Option Counter → ℕ
count_of none = 0
count_of (some c) = c.count

abbrev pub until_of : Option Counter → Option Time
until_of none = none
until_of (some c) = c.until

module _ (name : String) where
  -- `Locked`
  unfoldable pub locked : Access → LoginLimiter → Bool
  locked a l =
      l.has_redis
      && (a.answers && leb login_max_attempts (count_of (live a.now (lookup name l.counters))))

  -- INCR, and EXPIRE after the first one.
  abbrev pub incremented : Access → Option Counter → Counter
  incremented a held =
      let n = count_of held + 1 in
      record {
        count = n;
        until = if nat_eqb n 1 && a.expires then some (a.now + login_lockout) else until_of held;
      }

  -- `RecordFailure`
  unfoldable pub record_failed_login : Access → LoginLimiter → LoginLimiter
  record_failed_login a l =
      if l.has_redis && a.answers
      then record l {
        counters = insert name (incremented a (live a.now (lookup name l.counters))) l.counters;
      }
      else l

  -- `RecordSuccess`
  unfoldable pub record_login : Access → LoginLimiter → LoginLimiter
  record_login a l =
      if l.has_redis && a.answers then record l { counters = delete name l.counters } else l
