-- ===== src/Speech/Cache.antt =====
-- internal/speechcache/speechcache.go, `Get` and `Put`. The clips of the process stand under their id, those
-- of Redis as their bytes. What Redis does is a parameter: whether a call is carried out, and whether the
-- caller's own context was over when it failed. A clip is in Redis for its ttl; the time that is left
-- is kept as the instant until which it is there.
use ipsupport_airllm.Base.{
  ℕ, ◌+◌, ◌*◌, ◌<◌, ◌≤◌, ◌≡◌, Bool, true, ◌||◌, not, Option, none, some, length, if◌then◌else◌,
  nat_eqb, ltb, arith,
}
use ipsupport_airllm.Base.Bytes.{Bytes, bytes_eq}
use ipsupport_airllm.Base.Clock.{Time, Duration, second}
use ipsupport_airllm.Base.Dict.{Dict, lookup, insert, delete, lookup-insert_self}
use ipsupport_airllm.Speech.Names.{Key, id}
use ipsupport_airllm.Speech.Values.{Clip, encode, decode, one_line, OneLine, decode-encode}

abbrev pub max_clip_bytes : ℕ
max_clip_bytes = 4194304

abbrev pub remote_retry_after : Duration
remote_retry_after = 5 * second

pub record Kept (V : Type 0) : Type 0 where
  pub value : V
  pub until : Time

pub record Cache : Type 0 where
  pub has_redis : Bool
  pub local : Dict Bytes (Kept Clip)
  pub remote : Dict Bytes (Kept Bytes)
  pub remote_down_till : Time

pub record Access : Type 0 where
  pub answers : Bool
  pub caller_gone : Bool

pub data Failure : Type 0 where
  unavailable failed : Failure

-- A clip, a miss, or an error
pub data Got : Type 0 where
  hit : Clip → Got
  no_clip : Got
  not_read : Failure → Got

unfoldable pub remote_up : Time → Cache → Bool
remote_up now c = not (ltb now c.remote_down_till)

unfoldable pub remote_failed : Access → Time → Cache → Cache
remote_failed a now c =
    if a.caller_gone then c else record c { remote_down_till = now + remote_retry_after }

unfoldable pub get_local : Bytes → Time → Option (Kept Clip) → Cache → Got × Cache
get_local name now none c = (no_clip, record c { local = delete name c.local })
get_local name now (some kept) c =
    if ltb now kept.until
    then (hit kept.value, c)
    else (no_clip, record c { local = delete name c.local })

abbrev pub read_value : Option Clip → Got
read_value none = no_clip
read_value (some clip) = hit clip

-- GET of Redis, which has dropped what is out of its time
unfoldable pub get_remote : Time → Option (Kept Bytes) → Got
unfolding decode
get_remote now none = no_clip
get_remote now (some kept) = if ltb now kept.until then read_value (decode kept.value) else no_clip

module _ (sha : Bytes → Bytes) where
  unfoldable pub get : Access → Key → Time → Cache → Got × Cache
  unfolding get_local get_remote remote_up remote_failed id
  get a k now c =
      let name = id sha k in
      if not c.has_redis
      then get_local name now (lookup name c.local) c
      else if not (remote_up now c)
      then (not_read unavailable, c)
      else if a.answers
      then (get_remote now (lookup name c.remote), c)
      else (not_read failed, remote_failed a now c)

  -- The error of `Put`, if any
  unfoldable pub put : Access → Key → Clip → Duration → Time → Cache → Option Failure × Cache
  unfolding encode remote_up remote_failed id
  put a k clip ttl now c =
      let name = id sha k in
      if nat_eqb ttl 0 || ltb max_clip_bytes (length clip.audio)
      then (none, c)
      else if not c.has_redis
      then (
        none,
        record c { local = insert name (record { value = clip; until = now + ttl }) c.local },
      )
      else if not (remote_up now c)
      then (some unavailable, c)
      else if a.answers
      then (
        none,
        record c {
          remote = insert name (record { value = encode clip; until = now + ttl }) c.remote;
        },
      )
      else (some failed, remote_failed a now c)

  abbrev pub read_back : Bool → Clip → Clip
  read_back has_redis clip = if has_redis then record clip { label = one_line clip.label } else clip

  -- A clip that was stored is served until its ttl is over, and not from then on: as it was, but for a
  -- line break in its label when it went through Redis. It is one of at most 4 MiB whose content type and
  -- model are of one line, stored and read while Redis is up, or while there is none.
  pub get-put :
      (a : Access) (k : Key) (clip : Clip) (ttl : Duration) (now later : Time) (c : Cache)
      → 0 < ttl
      → length clip.audio ≤ max_clip_bytes
      → OneLine clip.content_type
      → OneLine clip.model
      → a.answers ≡ true
      → c.remote_down_till ≤ now
      → now ≤ later
      → (get a k later (put a k clip ttl now c).1).0
        ≡ (if ltb later (now + ttl) then hit (read_back c.has_redis clip) else no_clip)
  unfolding get put get_local get_remote remote_up
  get-put a k clip ttl now later c some_time short type model answers up order = ground (
    arith,
    lookup-insert_self (id sha k) (record { value = clip; until = now + ttl }) c.local,
    lookup-insert_self (id sha k) (record { value = encode clip; until = now + ttl }) c.remote,
    decode-encode clip type model,
  )
