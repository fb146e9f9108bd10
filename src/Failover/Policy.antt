-- ===== src/Failover/Policy.antt =====
-- The failover policy of one attempt (failover.go), the breaker thresholds of a tier (tier_breaker.go)
-- and the HTTP status of a failure (exec.go).
use text.Mathlib.Text.{◌==◌ as str_eq}
use Prim.Native.String.{compare}
use Prim.Native.Nat.{Ordering}
use mathlib.Core.Option
use ipsupport_airllm.Base.{
  ℕ, String, ◌*◌, Bool, true, false, not, ◌&&◌, ◌||◌, Option, none, some, List, [], ◌∷◌, ◌++◌, map,
  ltb, leb, nat_eqb, if◌then◌else◌,
}
use ipsupport_airllm.Base.Float.{Float}
use ipsupport_airllm.Base.Clock.{Duration, millisecond}
use ipsupport_airllm.Breaker.Types.{Settings, defaults}
use ipsupport_airllm.Providers.Errors.{
  Code, context_length_exceeded, multimodal_not_supported, reasoning_effort_unsupported,
  voice_not_supported, CallError, provider_error, is_auth_code, is_auth_failure, is_fallback_worthy,
  is_target_mismatch,
}
use ipsupport_airllm.Routing.Types.{BreakerOptions, TargetOptions, Target, Plan}
use ipsupport_airllm.Routing.Types
use ipsupport_airllm.Base.Sort.{stable_sort}

pub record FailoverConfig (F : Type 0) : Type 0 where
  pub timeout_ms : ℕ
  pub fallback_on_auth : Bool
  pub breaker : BreakerOptions F
  pub unavailable_initial_ms : ℕ
  pub unavailable_max_ms : ℕ

abbrev pub unset_options : {F : Type 0} → BreakerOptions F
unset_options = record {
  enabled = none;
  failures = none;
  error_rate = none;
  window_ms = none;
  min_requests = none;
  cooldown_ms = none;
  max_cooldown_ms = none;
  stable_ms = none;
}

-- `applyFailover`, of the decoded settings; a negative number is 0 here.
unfoldable pub apply_failover : {F : Type 0} ⦃fl : Float F⦄ → FailoverConfig F → FailoverConfig F
apply_failover cfg = record cfg {
  breaker = if Types.validate cfg.breaker then cfg.breaker else unset_options;
  unavailable_initial_ms =
      if ltb 0 cfg.unavailable_initial_ms then cfg.unavailable_initial_ms else 200;
  unavailable_max_ms = if ltb 0 cfg.unavailable_max_ms then cfg.unavailable_max_ms else 25600;
}

pub record AttemptPolicy : Type 0 where
  pub budget : Duration
  pub fallback_on_auth : Bool

-- `policyFor`
unfoldable pub policy_for : {F : Type 0} → FailoverConfig F → Target F → AttemptPolicy
policy_for cfg t = record {
  budget = Option.get_or t.options.timeout_ms cfg.timeout_ms * millisecond;
  fallback_on_auth = Option.get_or t.options.fallback_on_auth cfg.fallback_on_auth;
}

-- `(attemptPolicy).fallsThrough`
unfoldable pub falls_through : AttemptPolicy → CallError → Bool
unfolding is_fallback_worthy is_auth_failure
falls_through p err = is_fallback_worthy err || p.fallback_on_auth && is_auth_failure err

-- The codes of a failure that the request itself caused.
abbrev pub is_request_code : Code → Bool
is_request_code context_length_exceeded = true
is_request_code multimodal_not_supported = true
is_request_code reasoning_effort_unsupported = true
is_request_code voice_not_supported = true
is_request_code _ = false

abbrev pub blames_request : CallError → Bool
blames_request (provider_error e) = is_request_code e.code
blames_request _ = false

-- `countsAgainstTier`
unfoldable pub counts_against_tier : AttemptPolicy → CallError → Bool
unfolding falls_through
counts_against_tier pol err = falls_through pol err && not (blames_request err)

-- What a request can end with.
pub data RequestError : Type 0 where
  all_busy all_quarantined all_unavailable not_registered context_ended : RequestError
  unsupported : CallError → RequestError
  call_failed : CallError → RequestError

-- `nonRetryableClientStatus`
unfoldable pub client_status : CallError → Option ℕ
client_status (provider_error e) =
    if not e.retryable && (leb 400 e.status && (ltb e.status 500 && not (is_auth_code e.code)))
    then some e.status
    else none
client_status _ = none

abbrev pub status_of_call : CallError → ℕ
status_of_call err =
    if is_target_mismatch err
    then 400
    else elim (client_status err) [ none ↦ 502 | some status ↦ status ]

-- `classifyUpstreamErr`, its status.
unfoldable pub classify_upstream_err : RequestError → ℕ
unfolding is_target_mismatch client_status
classify_upstream_err all_busy = 429
classify_upstream_err all_quarantined = 503
classify_upstream_err all_unavailable = 503
classify_upstream_err (unsupported err) = status_of_call err
classify_upstream_err (call_failed err) = status_of_call err
classify_upstream_err _ = 502

-- `pick`: the value of the first layer that sets the key.
unfoldable pub pick {ℓ κ} : {L : Type ℓ} {A : Type κ} → (L → Option A) → List L → A → A
pick get [] default = default
pick get (l ∷ layers) default = Option.get_or (get l) (pick get layers default)

-- Go's order of strings, by their bytes.
abbrev pub text_less : String → String → Bool
text_less a b = elim (compare a b) [ Ordering.lt ↦ true | _ ↦ false ]

module _ {F : Type 0} where
  -- By provider, then by upstream model.
  abbrev pub target_before : Target F → Target F → Bool
  target_before a b =
      if str_eq a.provider b.provider
      then text_less a.upstream_model b.upstream_model
      else text_less a.provider b.provider

  -- The targets of the tier that have breaker options of their own.
  abbrev pub keep_target : ℕ → Target F → List (Target F) → List (Target F)
  keep_target tier t rest = elim t.options.breaker [
    | none ↦ rest
    | some _ ↦ if nat_eqb t.tier tier then t ∷ rest else rest
  ]

  unfoldable pub tier_targets_in : ℕ → List (Target F) → List (Target F)
  tier_targets_in tier [] = []
  tier_targets_in tier (t ∷ ts) = keep_target tier t (tier_targets_in tier ts)

  unfoldable pub tier_targets : ℕ → List (List (Target F)) → List (Target F)
  unfolding tier_targets_in
  tier_targets tier [] = []
  tier_targets tier (ts ∷ tiers) = tier_targets_in tier ts ++ tier_targets tier tiers

  abbrev pub own_options : Target F → BreakerOptions F
  own_options t = Option.get_or t.options.breaker unset_options

  -- The layers of `breakerSettings`, the one that wins first.
  unfoldable pub breaker_layers : FailoverConfig F → Plan F → ℕ → List (BreakerOptions F)
  unfolding tier_targets stable_sort
  breaker_layers cfg plan tier =
      map own_options (stable_sort target_before (tier_targets tier plan.tiers))
      ++ (cfg.breaker ∷ [])

  -- `breakerSettings`
  unfoldable pub breaker_settings : ⦃fl : Float F⦄ → FailoverConfig F → Plan F → ℕ → Settings F
  unfolding breaker_layers pick
  breaker_settings cfg plan tier =
      let layers = breaker_layers cfg plan tier in
      let ms = λ (o : Option ℕ). Option.map (λ v. v * millisecond) o in
      let set : Settings F = defaults in
      record set {
        enabled = pick (λ o. o.enabled) layers set.enabled;
        failures = pick (λ o. o.failures) layers set.failures;
        error_rate = pick (λ o. o.error_rate) layers set.error_rate;
        min_requests = pick (λ o. o.min_requests) layers set.min_requests;
        window = pick (λ o. ms o.window_ms) layers set.window;
        cooldown = pick (λ o. ms o.cooldown_ms) layers set.cooldown;
        max_cooldown = pick (λ o. ms o.max_cooldown_ms) layers set.max_cooldown;
        stable = pick (λ o. ms o.stable_ms) layers set.stable;
      }
