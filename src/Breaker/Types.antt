-- ===== src/Breaker/Types.antt =====
-- The data of internal/breaker/breaker.go. An absent `time.Time` is `none`; integers that options
-- validate to be positive are natural numbers.
use ipsupport_airllm.Base.{
  ℕ, String, ◌*◌, Bool, true, false, ◌&&◌, Option, none, Eq, ◌==◌, nat_eq, string_eq, arith, ◌≡◌,
  ◌↔◌,
}
use ipsupport_airllm.Base.Float.{Float}
use ipsupport_airllm.Base.Clock.{Time, Duration, minute, second}

pub record Settings (F : Type 0) : Type 0 where
  pub enabled : Bool
  pub failures : ℕ
  pub error_rate : F
  pub window : Duration
  pub min_requests : ℕ
  pub cooldown : Duration
  pub max_cooldown : Duration
  pub stable : Duration
  pub probe_lease : Duration

abbrev pub defaults : {F : Type 0} ⦃fl : Float F⦄ → Settings F
defaults ⦃fl⦄ = record {
  enabled = false;
  failures = 3;
  error_rate = fl.ratio 1 2;
  window = 30 * second;
  min_requests = 5;
  cooldown = minute;
  max_cooldown = 30 * minute;
  stable = 10 * minute;
  probe_lease = 0;
}

pub record Key : Type 0 where
  pub alias : String
  pub tier : ℕ

abbrev pub key_equal : Key → Key → Bool
key_equal a b = a.alias == b.alias && a.tier == b.tier

pub key_equal_iff : (a b : Key) → (key_equal a b ≡ true) ↔ (a ≡ b)
key_equal_iff a b =
    ground (arith, string_eq.equal_iff a.alias b.alias, nat_eq.equal_iff a.tier b.tier)

instance abbrev pub key_eq : Eq Key
key_eq = record { equal = key_equal; equal_iff = key_equal_iff }

-- What `record.State` holds: the empty string of a record never written, or a state.
pub data State : Type 0 where
  unset closed opened half_open : State

pub data Reason : Type 0 where
  no_reason consecutive_failures error_rate_exceeded probe_failed : Reason

pub record Admission : Type 0 where
  pub skip : Bool
  pub probe : Bool
  pub open_until : Option Time

-- `Admission{}`
abbrev pub admitted : Admission
admitted = record { skip = false; probe = false; open_until = none }

pub record Status : Type 0 where
  pub state : State
  pub reason : Reason
  pub open_until : Option Time
  pub cooldown_ms : ℕ
  pub trips : ℕ
  pub consecutive_failures : ℕ
  pub window_requests : ℕ
  pub window_failures : ℕ

-- `Transition.Cause`
pub data Cause : Type 0 where
  no_cause by_probe manual forced : Cause
  tripped : Reason → Cause

pub record Transition : Type 0 where
  pub key : Key
  pub from : State
  pub to : State
  pub cause : Cause
  pub cooldown : Duration
  pub open_until : Option Time

-- The stored state of one breaker. Times are Unix milliseconds.
pub record Record : Type 0 where
  pub state_tag : State
  pub reason : Reason
  pub consecutive : ℕ
  pub window_start : ℕ
  pub window_reqs : ℕ
  pub window_fails : ℕ
  pub trips : ℕ
  pub cooldown_ms : ℕ
  pub open_until : ℕ
  pub probe_until : ℕ
  pub closed_at : ℕ

-- `record{}`
abbrev pub zero_record : Record
zero_record = record {
  state_tag = unset;
  reason = no_reason;
  consecutive = 0;
  window_start = 0;
  window_reqs = 0;
  window_fails = 0;
  trips = 0;
  cooldown_ms = 0;
  open_until = 0;
  probe_until = 0;
  closed_at = 0;
}
