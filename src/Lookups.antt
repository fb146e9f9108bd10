-- ===== src/Lookups.antt =====
-- internal/lookupcache/lookupcache.go: the answers to database lookups, kept for a while, and longer while
-- the database is away. A `Get` is three steps, between which other requests and purges run: `look`
-- (from line 95), `store_answer` (the body of the shared load) and `conclude` (what follows the load).
-- Which requests share one load is singleflight's choice: a request may conclude with an answer that
-- another's load was given. Logging and timeouts are not modelled: a load that runs out of time fails.
pub mod Purges
pub mod Answers
use ipsupport_airllm.Base.{
  ℕ, ◌+◌, ◌*◌, Bool, true, false, ◌&&◌, not, Option, none, some, List, [], ◌∷◌, String, string_eq,
  ltb, nat_eqb, if◌then◌else◌,
}
use ipsupport_airllm.Base.Clock.{Time, Duration, second}
use ipsupport_airllm.Base.Dict.{Dict, lookup, insert, delete}

abbrev pub backoff : Duration
backoff = 5 * second

pub record Options : Type 0 where
  pub ttl : Duration
  pub max_stale : Duration

pub record Entry (V : Type 0) : Type 0 where
  pub v : V
  pub at : Time

-- `quiet_until`: none is the zero time.
pub record Cache (V : Type 0) : Type 0 where
  pub entries : Dict String (Entry V)
  pub gen : ℕ
  pub quiet_until : Option Time

abbrev pub new : {V : Type 0} → Cache V
new = record { entries = []; gen = 0; quiet_until = none }

-- What a load ends with: an answer, the database's "no such thing", or another error
pub data Answer (V : Type 0) : Type 0 where
  found : V → Answer V
  miss error : Answer V

-- What a request keeps of its look at the cache while it waits: `held` is the entry it may fall back on.
pub record Ticket (V : Type 0) : Type 0 where
  pub key : String
  pub now : Time
  pub gen : ℕ
  pub held : Option (Entry V)

pub data Look (V : Type 0) : Type 0 where
  serves : V → Look V
  asks : Ticket V → Look V

-- What the request returns: an answer, or a stale one
pub data Result (V : Type 0) : Type 0 where
  answered : Answer V → Result V
  stale : V → Result V

-- The steps that change the cache, in the order in which they occur
pub data Event (V : Type 0) : Type 0 where
  stored : Ticket V → Answer V → Event V
  concluded : Ticket V → Answer V → Time → Event V
  purged : Event V

-- `now.Sub(e.at) < d`
abbrev pub younger : {V : Type 0} → Time → Duration → Entry V → Bool
younger now d e = ltb now (e.at + d)

abbrev pub is_quiet : Option Time → Time → Bool
is_quiet none now = false
is_quiet (some until) now = ltb now until

module _ {V : Type 0} where
  unfoldable pub look : Options → String → Time → Cache V → Look V
  look opts key now c = elim (lookup key c.entries) [
    | none ↦ asks (record { key = key; now = now; gen = c.gen; held = none })
    | some e ↦
        if younger now opts.ttl e
        then serves e.v
        else if younger now opts.max_stale e
        then (if is_quiet c.quiet_until now
            then serves e.v
            else asks (record { key = key; now = now; gen = c.gen; held = some e }))
        else asks (record { key = key; now = now; gen = c.gen; held = none })
  ]

  -- The load's own part, with the ticket of the request that started it
  unfoldable pub store_answer : Ticket V → Answer V → Cache V → Cache V
  store_answer t (found v) c =
      if nat_eqb c.gen t.gen
      then record c { entries = insert t.key (record { v = v; at = t.now }) c.entries }
      else c
  store_answer t miss c = record c { entries = delete t.key c.entries }
  store_answer t error c = c

  -- The end of `Get`, at the time it reads after the load
  unfoldable pub conclude : Ticket V → Answer V → Time → Cache V → Result V × Cache V
  conclude t (found v) now c = (answered (found v), c)
  conclude t miss now c = (answered miss, c)
  conclude t error now c = elim t.held [
    | none ↦ (answered error, c)
    | some e ↦
        if nat_eqb c.gen t.gen
        then (stale e.v, record c { quiet_until = some (now + backoff) })
        else (answered error, c)
  ]

  unfoldable pub purge : Cache V → Cache V
  purge c = record c { entries = []; gen = c.gen + 1; quiet_until = none }

  -- A `Get` that shares its load with no other, and that nothing comes between
  unfoldable pub get_alone :
      Options → String → Time → Answer V → Time → Cache V → Result V × Cache V
  unfolding look store_answer conclude
  get_alone opts key now answer later c = elim (look opts key now c) [
    | serves v ↦ (answered (found v), c)
    | asks t ↦ conclude t answer later (store_answer t answer c)
  ]

  unfoldable pub event : Event V → Cache V → Cache V
  unfolding store_answer conclude purge
  event (stored t answer) c = store_answer t answer c
  event (concluded t answer now) c = (conclude t answer now c).1
  event purged c = purge c

  unfoldable pub run : List (Event V) → Cache V → Cache V
  unfolding event
  run [] c = c
  run (e ∷ es) c = run es (event e c)
