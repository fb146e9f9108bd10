-- ===== src/Affinity.antt =====
-- internal/affinity/affinity.go: which tier a client's session is pinned to. A session's Redis key
-- holds a hash of it; here it is the key itself. Redis drops a value when its lifetime is over, by its
-- own clock; a value is one that the script wrote. A `none` time is the zero time.
use Prim.Native.Nat.{max}
use ipsupport_airllm.Base.{
  ℕ, String, ◌+◌, ◌*◌, ◌/◌, Bool, true, false, not, ◌&&◌, Option, none, some, List, [], ◌∷◌, ltb,
  leb, length, if◌then◌else◌, Eq, ◌==◌, string_eq, ◌≡◌, ◌↔◌, arith,
}
use ipsupport_airllm.Base.Clock.{Time, Duration, second, minute, millisecond, milliseconds}
use ipsupport_airllm.Base.Dict.{Dict, lookup, insert, delete}
pub mod Pins
pub mod Uses
pub mod Sessions

pub record Key : Type 0 where
  pub alias : String
  pub session : String

abbrev pub key_equal : Key → Key → Bool
key_equal a b = a.alias == b.alias && a.session == b.session

pub key_equal_iff : (a b : Key) → (key_equal a b ≡ true) ↔ (a ≡ b)
key_equal_iff a b =
    ground (arith, string_eq.equal_iff a.alias b.alias, string_eq.equal_iff a.session b.session)

instance abbrev pub key_eq : Eq Key
key_eq = record { equal = key_equal; equal_iff = key_equal_iff }

pub record Pin : Type 0 where
  pub tier : ℕ
  pub until : Time

pub record Store : Type 0 where
  pub has_redis : Bool
  pub local : Dict Key Pin
  pub redis : Dict Key Pin
  pub next_sweep : Option Time
  pub remote_down_till : Option Time

-- What becomes of a command: it is answered, it fails, or it fails and the caller's context has ended.
pub data Answer : Type 0 where
  answered failed abandoned : Answer

-- One access to Redis: the wall clock when it starts and when it fails, Redis's own clock, and what
-- becomes of the command.
pub record Access : Type 0 where
  pub wall : Time
  pub failed_at : Time
  pub redis_now : Time
  pub answer : Answer

abbrev pub sweep_at : ℕ
sweep_at = 1024

abbrev pub sweep_every : Duration
sweep_every = minute

abbrev pub remote_retry_after : Duration
remote_retry_after = 5 * second

-- The tier of a pin that has not expired.
abbrev pub tier_at : Time → Option Pin → Option ℕ
tier_at now none = none
tier_at now (some p) = if ltb now p.until then some p.tier else none

-- `localPinned`
unfoldable pub local_pinned : Time → Key → Dict Key Pin → Option ℕ
local_pinned now k pins = tier_at now (lookup k pins)

unfoldable pub drop_expired : Time → Dict Key Pin → Dict Key Pin
drop_expired now [] = []
drop_expired now ((k, p) ∷ pins) =
    let kept = drop_expired now pins in if ltb now p.until then (k, p) ∷ kept else kept

abbrev pub reached : Time → Option Time → Bool
reached now none = true
reached now (some at) = leb at now

-- The sweep of `localPin`.
unfoldable pub sweep : Time → Store → Store
sweep now s =
    if leb sweep_at (length s.local) && reached now s.next_sweep
    then record s { next_sweep = some (now + sweep_every); local = drop_expired now s.local }
    else s

-- A tier that is not before the one that is held.
abbrev pub raised : Option ℕ → ℕ → ℕ
raised none tier = tier
raised (some held) tier = if leb tier held then held else tier

-- Whether the tier held changes.
abbrev pub moves : Option ℕ → ℕ → Bool
moves none tier = true
moves (some held) tier = ltb held tier

-- `localPin`
unfoldable pub local_pin : Time → Key → ℕ → Duration → Store → Store × Bool
local_pin now k tier ttl s =
    let s' = sweep now s in
    let held = local_pinned now k s'.local in
    (
      record s' {
        local = insert k (record { tier = raised held tier; until = now + ttl }) s'.local;
      },
      moves held tier,
    )

-- `useRemote`, `remoteFailed`, `remoteOK`
unfoldable pub use_remote : Access → Store → Bool
use_remote a s =
    s.has_redis && elim s.remote_down_till [ none ↦ true | some till ↦ ltb till a.wall ]

abbrev pub remote_failed : Access → Store → Store
remote_failed a s = record s { remote_down_till = some (a.failed_at + remote_retry_after) }

abbrev pub remote_ok : Store → Store
remote_ok s = record s { remote_down_till = none }

-- `pinScript`: the values and the tier held before.
unfoldable pub pin_script : Time → Key → ℕ → ℕ → Dict Key Pin → Dict Key Pin × Option ℕ
pin_script at k tier ttl_ms values =
    let cur = tier_at at (lookup k values) in
    (insert k (record { tier = raised cur tier; until = at + ttl_ms * millisecond }) values, cur)

-- The later of the two tiers that are known.
abbrev pub later_tier : Option ℕ → Option ℕ → Option ℕ
later_tier here none = here
later_tier none (some there) = some there
later_tier (some here) (some there) = if ltb here there then some there else some here

abbrev pinned_by : Answer → Access → Key → Option ℕ → Store → Store × Option ℕ
pinned_by answered a k here s =
    (remote_ok s, later_tier here (tier_at a.redis_now (lookup k s.redis)))
pinned_by failed a k here s = (remote_failed a s, here)
pinned_by abandoned a k here s = (s, here)

-- `Pinned`
unfoldable pub pinned : Access → Time → Key → Store → Store × Option ℕ
pinned a now k s =
    let here = local_pinned now k s.local in
    if use_remote a s then pinned_by a.answer a k here s else (s, here)

abbrev pin_by : Answer → Access → Key → ℕ → Duration → Store × Bool → Store × Bool
pin_by answered a k tier ttl (s, moved) =
    let (values, prev) = pin_script a.redis_now k tier (milliseconds ttl) s.redis in
    (remote_ok (record s { redis = values }), moves prev tier)
pin_by failed a k tier ttl (s, moved) = (remote_failed a s, moved)
pin_by abandoned a k tier ttl (s, moved) = (s, moved)

-- `Pin`
unfoldable pub pin : Access → Time → Key → ℕ → Duration → Store → Store × Bool
pin a now k tier ttl s =
    let done = local_pin now k tier ttl s in
    if use_remote a done.0 then pin_by a.answer a k tier ttl done else done

abbrev forget_by : Answer → Access → Key → Store → Store
forget_by answered a k s = remote_ok (record s { redis = delete k s.redis })
forget_by failed a k s = remote_failed a s
forget_by abandoned a k s = s

-- `Forget`
unfoldable pub forget : Access → Key → Store → Store
forget a k s =
    let s' = record s { local = delete k s.local } in
    if use_remote a s' then forget_by a.answer a k s' else s'
