-- ===== src/Affinity/Pins.antt =====
-- A session is only ever moved to a later tier while its pin lives.
use Prim.Native.Nat.{max}
use mathlib.Core.Path.{ap₂}
use ipsupport_airllm.Base.{
  ℕ, ◌+◌, ◌*◌, ◌≤◌, ◌≡◌, refl, ap, ◌∙◌, ◌&&◌, Option, none, some, [], ◌∷◌, ltb, leb, length,
  if◌then◌else◌, ◌==◌, arith, Bool-cases, inl, inr,
}
use ipsupport_airllm.Base.Clock.{Time, Duration, millisecond}
use ipsupport_airllm.Base.Dict.{Dict, lookup, insert, lookup-insert, lookup-insert_self}
use ipsupport_airllm.Affinity.{
  Key, key_eq, Pin, Store, tier_at, local_pinned, drop_expired, sweep, sweep_at, reached, raised,
  moves, local_pin, pin_script,
}

-- The later of the tier held, if any, and the tier asked for, while the lifetime lasts.
abbrev pub raised_tier : Time → Time → Option ℕ → ℕ → Option ℕ
raised_tier later until none tier = if ltb later until then some tier else none
raised_tier later until (some held) tier = if ltb later until then some (max held tier) else none

-- Each key has one entry.
abbrev pub Fresh : Key → Dict Key Pin → Type 0
Fresh k pins = lookup k pins ≡ none

abbrev pub Distinct : Dict Key Pin → Type 0
Distinct [] = Unit
Distinct ((k, p) ∷ pins) = Fresh k pins × Distinct pins

pub drop_expired-Fresh :
    (now : Time) (k : Key) (pins : Dict Key Pin) → Fresh k pins → Fresh k (drop_expired now pins)
unfolding drop_expired lookup
drop_expired-Fresh now k [] h = refl
drop_expired-Fresh now k ((j, p) ∷ pins) h = elim (Bool-cases (k == j)) [
  | inl same ↦ absurd (ground arith)
  | inr other ↦
      let rest : Fresh k pins = ground arith in
      let gone = drop_expired-Fresh now k pins rest in ground arith
]

-- A sweep drops no pin that lives.
drop_expired-tier :
    (now later : Time) (k : Key) (pins : Dict Key Pin)
    → now ≤ later
    → Distinct pins
    → tier_at later (lookup k (drop_expired now pins)) ≡ tier_at later (lookup k pins)
unfolding drop_expired lookup
drop_expired-tier now later k [] h d = refl
drop_expired-tier now later k ((j, p) ∷ pins) h d = ground (
  arith,
  drop_expired-tier now later k pins h d.1,
  drop_expired-Fresh now k pins,
  key_eq.equal_iff k j,
)

sweep-tier :
    (now later : Time) (k : Key) (s : Store)
    → now ≤ later
    → Distinct s.local
    → local_pinned later k (sweep now s).local ≡ local_pinned later k s.local
unfolding sweep local_pinned
sweep-tier now later k s h d =
    elim (Bool-cases (leb sweep_at (length s.local) && reached now s.next_sweep)) [
      | inl due ↦ rw due (drop_expired-tier now later k s.local h d)
      | inr idle ↦ rw idle
    ]

-- The expiry of a pin, on the pins of one process or in Redis.
raise-tier :
    (later until : Time) (held : Option ℕ) (tier : ℕ)
    → tier_at later (some (record { tier = raised held tier; until = until }))
      ≡ raised_tier later until held tier
raise-tier later until none tier = refl
raise-tier later until (some held) tier = ground arith

local_pinned-insert :
    (later : Time) (k j : Key) (p : Pin) (pins : Dict Key Pin)
    → local_pinned later j (insert k p pins)
      ≡ (if k == j then tier_at later (some p) else local_pinned later j pins)
unfolding local_pinned
local_pinned-insert later k j p pins = elim (Bool-cases (k == j)) [
  | inl same ↦ rw (lookup-insert, same)
  | inr other ↦ rw (lookup-insert, other)
]

-- A pin on this process holds the later of the tier that the session is pinned to and the new one, for
-- the whole of the new lifetime and no longer, and it tells whether the tier changed; a session that
-- another key names keeps its pin, though a pin may drop those that have expired.
pub local_pin_lem :
    (now later : Time) (k j : Key) (tier : ℕ) (ttl : Duration) (s : Store)
    → Distinct s.local
    → now ≤ later
    → (local_pinned later j (local_pin now k tier ttl s).0.local ≡ (
        if k == j
        then raised_tier later (now + ttl) (local_pinned now k s.local) tier
        else local_pinned later j s.local))
      × ((local_pin now k tier ttl s).1 ≡ moves (local_pinned now k s.local) tier)
unfolding local_pin
local_pin_lem now later k j tier ttl s d h = (
  local_pinned-insert later k j
        (record { tier = raised (local_pinned now k (sweep now s).local) tier; until = now + ttl })
        (sweep now s).local
      ∙ ap₂ (λ a b. if k == j then a else b)
          (raise-tier later (now + ttl) (local_pinned now k (sweep now s).local) tier
            ∙ ap (λ held. raised_tier later (now + ttl) held tier)
                (sweep-tier now now k s (omega arith) d))
          (sweep-tier now later j s h d),
  ap (λ held. moves held tier) (sweep-tier now now k s (omega arith) d),
)

-- The script keeps in Redis what a pin on one process keeps, by Redis's clock.
pub pin_script_lem :
    (at later : Time) (k : Key) (tier ms : ℕ) (values : Dict Key Pin)
    → (tier_at later (lookup k (pin_script at k tier ms values).0)
        ≡ raised_tier later (at + ms * millisecond) (tier_at at (lookup k values)) tier)
      × ((pin_script at k tier ms values).1 ≡ tier_at at (lookup k values))
unfolding pin_script
pin_script_lem at later k tier ms values = (
  rw lookup-insert_self
      (raise-tier later (at + ms * millisecond) (tier_at at (lookup k values)) tier),
  refl,
)
