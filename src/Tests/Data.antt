-- ===== src/Tests/Data.antt =====
-- The inputs that the runs share: rates in thousandths, codecs that keep a value as it is, settings.
use ipsupport_airllm.Base.{
  ℕ, ◌+◌, ◌-◌, ◌*◌, ◌/◌, true, false, none, some, [], ◌∷◌, ltb, leb, nat_eqb, refl, arith,
}
use ipsupport_airllm.Base.Float.{Float, IsOrdered}
use ipsupport_airllm.Breaker.Types.{
  Settings, defaults, Key, closed, opened, half_open, consecutive_failures, Record, zero_record,
}
use ipsupport_airllm.Breaker.Stores.{Codec, Access, commits, loses, Breaker}
use ipsupport_airllm.Breaker.Races.{RoundTrips}
use ipsupport_airllm.Unavail
use ipsupport_airllm.Unavail.Laws

instance abbrev pub thousandths : Float ℕ
thousandths = record {
  of_int = λ n. n * 1000;
  ratio = λ n d. n * 1000 / d;
  mul = λ a b. a * b / 1000;
  add = λ a b. a + b;
  sub = λ a b. a - b;
  div = λ a b. a * 1000 / b;
  lt = ltb;
  le = leb;
  eq = nat_eqb;
}

pub thousandths-IsOrdered : IsOrdered thousandths
thousandths-IsOrdered = record {
  lt-asymm = λ a b h. ground arith;
  lt-weak = λ a b c h k. ground arith;
  eq-not-lt = λ a b h. ground arith;
}

abbrev pub plain : Codec Record
plain = record { marshal = λ r. r; unmarshal = λ r. (r, true) }

pub plain-RoundTrips : RoundTrips plain
plain-RoundTrips = record { unmarshal-marshal = λ r. refl }

abbrev pub plain_mark : Unavail.Codec Unavail.Mark
plain_mark = record { marshal = λ r. r; unmarshal = λ r. some r }

pub plain_mark-RoundTrips : Laws.RoundTrips plain_mark
plain_mark-RoundTrips = record { unmarshal-marshal = λ r. refl }

abbrev pub enabled : Settings ℕ
enabled = let set : Settings ℕ = defaults in record set { enabled = true; min_requests = 0 }

abbrev pub chat : Key
chat = record { alias = "chat"; tier = 0 }

abbrev pub backup : Key
backup = record { alias = "chat"; tier = 1 }

-- A tier with two failures in a row.
abbrev pub failing : Record
failing = record zero_record {
  state_tag = closed;
  consecutive = 2;
  window_start = 1;
  window_reqs = 2;
  window_fails = 2;
}

-- A tier that its second trip keeps open until the 120th second.
abbrev pub open_tier : Record
open_tier = record zero_record {
  state_tag = opened;
  reason = consecutive_failures;
  trips = 2;
  cooldown_ms = 120_000;
  open_until = 120_000;
}

abbrev pub probing_tier : Record
probing_tier = record open_tier { state_tag = half_open; probe_until = 150_000 }

abbrev pub answering : Access Record
answering = record {
  wall = 0;
  failed_at = 0;
  ended = false;
  answers = true;
  attempts = λ i. commits;
}

-- Redis answers nothing, and the caller has gone.
abbrev pub silent : Access Record
silent = record answering { answers = false; ended = true }

-- Every transaction loses its race to a replica that writes the same failures.
abbrev pub losing : Access Record
losing = record answering { attempts = λ i. loses (some failing) }

abbrev pub alone : Breaker ℕ Record
alone = record {
  has_remote = false;
  local = (chat, failing) ∷ (backup, open_tier) ∷ [];
  redis = [];
  remote_down_till = none;
  seen = [];
  observed = [];
}

abbrev pub shared : Breaker ℕ Record
shared = record alone { has_remote = true; local = []; redis = alone.local }
