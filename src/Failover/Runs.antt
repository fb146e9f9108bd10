-- ===== src/Failover/Runs.antt =====
-- The variables of `executePlan`, its log, and how a turn of its loop goes on or ends.
use ipsupport_airllm.Base.{
  ℕ, String, Bool, true, Option, none, some, List, [], ◌∷◌, ◌++◌, nat_eq, if◌then◌else◌,
}
use ipsupport_airllm.Base.Clock.{Time}
use ipsupport_airllm.Base.Dict.{Dict, insert}
use ipsupport_airllm.Breaker.Types.{Key}
use ipsupport_airllm.Providers.Errors.{CallError}
use ipsupport_airllm.Routing.Types.{Target}
use ipsupport_airllm.Failover.Policy.{RequestError}

-- Why a request moved past a tier.
pub data MoveReason : Type 0 where
  quarantined unavailable : MoveReason
  failure : CallError → MoveReason

pub data Event (F : Type 0) : Type 0 where
  -- an admission: whether it was forced, and whether it is the probe
  admission : Key → Bool → Bool → Event F
  -- a recorded outcome: whether it failed, and whether it is the probe's
  outcome : Key → Bool → Bool → Event F
  abandoned : Key → Event F
  acquired released : String → Event F
  -- a call, and the error that it came back with
  called : Target F → Option CallError → Event F

-- The variables of `executePlan`; the log has the newest event first.
pub record Run (F W : Type 0) : Type 0 where
  pub world : W
  pub log : List (Event F)
  pub target : Option (Target F)
  pub attempts : ℕ
  pub last_err : Option RequestError
  pub skip_err : Option CallError
  pub moved : List (ℕ × MoveReason)
  pub saw_quarantined : Bool
  pub saw_unavailable : Bool
  pub open_until : Dict ℕ Time
  pub any_busy : Bool
  pub saw_busy : Bool
  pub forced_call : Bool

-- The result of `executePlan`: the variables, whether output was committed, and the error.
pub record Result (F W : Type 0) : Type 0 where
  pub run : Run F W
  pub started : Bool
  pub err : Option RequestError

-- A `return` ends the request; otherwise the walk goes on.
pub data Flow (F W : Type 0) : Type 0 where
  next : Run F W → Flow F W
  stop : Result F W → Flow F W

module _ {F W : Type 0} where
  abbrev pub note : Event F → Run F W → Run F W
  note e r = record r { log = e ∷ r.log }

  abbrev pub move : ℕ → MoveReason → Run F W → Run F W
  move tier why r = record r { moved = r.moved ++ ((tier, why) ∷ []) }

  abbrev pub end_with : Run F W → Bool → Option RequestError → Flow F W
  end_with r started err = stop (record { run = r; started = started; err = err })

  abbrev pub note_open : ℕ → Option Time → Run F W → Run F W
  note_open tier none r = r
  note_open tier (some at) r = record r { open_until = insert tier at r.open_until }

  -- A tier that its breaker closes to this attempt.
  unfoldable pub skip_tier : Target F → Bool → Option Time → Run F W → Run F W
  skip_tier t forced until r =
      if forced
      then r
      else note_open t.tier until (move t.tier quarantined (record r { saw_quarantined = true }))
