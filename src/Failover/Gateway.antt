-- ===== src/Failover/Gateway.antt =====
-- What `executePlan` uses of the other parts of the gateway, as one record of operations on a state
-- `W` of the world: the registry, the router's tick, the breaker, the unavailability marks, the
-- providers' slots and calls, the client's context. The laws that a claim needs are its hypotheses.
use ipsupport_airllm.Base.{ℕ, String, Bool, true, false, Option, some, ◌≡◌}
use ipsupport_airllm.Base.Clock.{Duration}
use ipsupport_airllm.Breaker.Types.{Settings, Key, Admission}
use ipsupport_airllm.Providers.Errors.{CallError, served_without_call}
use ipsupport_airllm.Routing.Types.{LcrRank, Target}
use ipsupport_airllm.Failover.Policy.{AttemptPolicy}

-- What `runAttempt` returns: whether the call committed output, and its error.
pub record Outcome : Type 0 where
  pub committed : Bool
  pub error : Option CallError

pub record Gateway (F W : Type 0) : Type 0 where
  -- `s.router.NextRR(plan.Alias)`
  pub next_rr : String → W → ℕ × W
  -- `s.freeFunc(reg)`
  pub free : W → String → Option ℕ
  pub rank : Target F → LcrRank F
  -- `reg.Get`
  pub registered : String → Bool
  -- `supports(e.Provider)`: `none` when the provider can serve the call
  pub supports : String → Option CallError
  -- `s.policyFor`, `s.breakerSettings`
  pub policy : Target F → AttemptPolicy
  pub settings : ℕ → Settings F
  -- `s.breaker.Admit` and, with `true`, `s.breaker.Force`
  pub admit : Bool → Key → Settings F → W → Admission × W
  pub record_outcome : Key → Settings F → Bool → Bool → W → W
  pub abandon_probe : Key → Settings F → W → W
  -- `s.unavail.Check`, `s.markUnavailable`
  pub unavailable : Target F → W → Bool × W
  pub mark_unavailable : Target F → CallError → W → W
  -- `s.lcr.Record`
  pub record_lcr : Target F → Bool → W → W
  -- `e.Acquire`, `e.Release`
  pub acquire : String → W → Bool × W
  pub release : String → W → W
  -- `runAttempt` of the call, under the target's budget
  pub call : Target F → Duration → W → Outcome × W
  -- `ctx.Err() != nil`
  pub ended : W → Bool
  -- the wait between two rounds: whether the context ended first
  pub wait : W → Bool × W

-- What the executor relies on: an attempt that must skip its tier holds no probe (the breaker), and
-- a call that was answered without its target commits no output (the synthesis cache).
pub record IsSound {F W : Type 0} (g : Gateway F W) : Type 0 where
  pub skip-no_probe :
      (force : Bool) (k : Key) (set : Settings F) (w : W)
      → (g.admit force k set w).0.skip ≡ true
      → (g.admit force k set w).0.probe ≡ false
  pub uncalled-uncommitted :
      (t : Target F) (budget : Duration) (w : W)
      → (g.call t budget w).0.error ≡ some served_without_call
      → (g.call t budget w).0.committed ≡ false
