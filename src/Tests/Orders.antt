-- ===== src/Tests/Orders.antt =====
-- Runs of the router's orders and of the choice of settings.
use text.Mathlib.Text.{◌==◌ as text_eq}
use mathlib.Core.List.{Perm}
use ipsupport_airllm.Base.{
  ℕ, String, ◌%◌, ◌<◌, ◌≡◌, refl, arith, true, false, Option, none, some, List, [], ◌∷◌, ◌++◌,
  length, take, drop, nat_eqb, ltb, ◌*◌, if◌then◌else◌,
}
use ipsupport_airllm.Base.Clock.{second}
use ipsupport_airllm.Routing.Types.{
  Target, TargetOptions, Plan, LcrRank, least_busy, lcr, price, validate, affinity_ttl,
  synthesis_cache_ttl,
}
use ipsupport_airllm.Base.Sort.{IsSorted}
use ipsupport_airllm.Routing.Rotate.{rotate, rotate-eq-append}
use ipsupport_airllm.Routing.Fuel.{rotate_runs-ends}
use ipsupport_airllm.Routing.Order.{rotate_runs, order_tier_lcr, order_tier, ordered, less_ranked}
use ipsupport_airllm.Routing.Permutes.{all_targets, ordered-perm}
use ipsupport_airllm.Routing.Ranks.{order_tier_lcr-IsSorted}
use ipsupport_airllm.Failover.Policy.{
  FailoverConfig, apply_failover, breaker_settings, unset_options,
}
use ipsupport_airllm.Failover.Layers.{breaker_settings-positive}
use ipsupport_airllm.Failover.Walk.{soonest_open}
use ipsupport_airllm.Failover.Resort.{Soonest, soonest_open-Soonest}
use ipsupport_airllm.Tests.Data.{thousandths, thousandths-IsOrdered}

abbrev pub no_options : TargetOptions ℕ
no_options = record {
  timeout_ms = none;
  fallback_on_auth = none;
  breaker = none;
  thinking = none;
  recognition_models = [];
  voices = [];
  default_voices = [];
  send_language = none;
  stream_speech = none;
}

abbrev pub target : String → ℕ → Target ℕ
target provider tier = record {
  provider = provider;
  upstream_model = "m";
  upstream_protocol = "";
  display_label = "";
  options = no_options;
  tier = tier;
}

-- Three tiers: one provider, two, one.
abbrev pub plan : Plan ℕ
plan = record {
  alias = "chat";
  strategy = lcr;
  dlp_model_scan = false;
  expose_backend_headers = false;
  dlp_audio_scan = false;
  tiers =
      (target "down" 0 ∷ [])
      ∷ (target "bad" 1 ∷ target "good" 1 ∷ [])
      ∷ (target "spare" 2 ∷ [])
      ∷ [];
  session_affinity = false;
  session_affinity_ttl = affinity_ttl 0;
  synthesis_cache = false;
  synthesis_cache_ttl = synthesis_cache_ttl 0;
  lcr_mode = price;
  lcr_min_availability = 0;
}

abbrev pub rank_of : Target ℕ → LcrRank ℕ
rank_of t = record { price = t.tier * 10; availability = 1000 }

abbrev pub one_free : String → Option ℕ
one_free provider = some 1

abbrev three : List ℕ
three = 1 ∷ 2 ∷ 3 ∷ []

rotate-eq-append_test :
    rotate 5 three ≡ drop (5 % length three) three ++ take (5 % length three) three
rotate-eq-append_test = rotate-eq-append 5 three (omega arith)

rotate_test : rotate 5 three ≡ (3 ∷ 1 ∷ 2 ∷ [])
unfolding rotate
rotate_test = refl

ordered-perm_example : Perm (ordered plan 3 one_free rank_of) (all_targets plan.tiers)
ordered-perm_example = ordered-perm plan 3 one_free rank_of

abbrev priced : Target ℕ → LcrRank ℕ
priced t = record { price = if ltb t.tier 1 then 30 else 10; availability = 1000 }

order_tier_lcr-IsSorted_example :
    IsSorted
      (less_ranked price 0 priced)
      (order_tier_lcr price 0 1 priced (target "dear" 0 ∷ target "a" 1 ∷ target "b" 1 ∷ []))
order_tier_lcr-IsSorted_example =
    order_tier_lcr-IsSorted thousandths-IsOrdered price 0 priced 1
      (target "dear" 0 ∷ target "a" 1 ∷ target "b" 1 ∷ [])

-- The two cheap targets share the load, and the dear one comes last.
order_tier_lcr_test :
    order_tier_lcr price 0 1 priced (target "dear" 0 ∷ target "a" 1 ∷ target "b" 1 ∷ [])
    ≡ (target "b" 1 ∷ target "a" 1 ∷ target "dear" 0 ∷ [])
unfolding order_tier_lcr rotate
order_tier_lcr_test = refl

least_busy_test :
    order_tier least_busy 1
      (λ s. if text_eq s "a" then some 1 else some 2)
      (target "a" 1 ∷ target "b" 1 ∷ [])
    ≡ (target "b" 1 ∷ target "a" 1 ∷ [])
unfolding order_tier
least_busy_test = refl

-- Options that the gateway's settings set out of range.
abbrev config : FailoverConfig ℕ
config = record {
  timeout_ms = 30_000;
  fallback_on_auth = false;
  breaker = record unset_options { failures = some 0 };
  unavailable_initial_ms = 0;
  unavailable_max_ms = 0;
}

no_options-valid : validate {F = ℕ} unset_options ≡ true
unfolding validate
no_options-valid = refl

breaker_settings-positive_test :
    let set = breaker_settings (apply_failover config) plan 1 in
    (0 < set.failures)
    × (0 < set.window)
    × (0 < set.min_requests)
    × (0 < set.cooldown)
    × (0 < set.max_cooldown)
    × (0 < set.stable)
breaker_settings-positive_test = breaker_settings-positive config plan 1 (
  (no_options-valid, tt),
  ((no_options-valid, (no_options-valid, tt)), ((no_options-valid, tt), tt)),
)

config_test : (breaker_settings (apply_failover config) plan 1).failures ≡ 3
unfolding breaker_settings apply_failover validate
config_test = refl

soonest_open-Soonest_test :
    Soonest ((0, 90) ∷ (1, 60) ∷ (2, 60) ∷ []) (soonest_open ((0, 90) ∷ (1, 60) ∷ (2, 60) ∷ []))
soonest_open-Soonest_test = soonest_open-Soonest ((0, 90) ∷ (1, 60) ∷ (2, 60) ∷ [])

soonest_test : soonest_open ((0, 90) ∷ (1, 60) ∷ (2, 60) ∷ []) ≡ some (1, 60)
unfolding soonest_open
soonest_test = refl

ttl_test : (affinity_ttl 0 ≡ 14400 * second) × (synthesis_cache_ttl 60 ≡ 60 * second)
unfolding affinity_ttl synthesis_cache_ttl
ttl_test = (refl, refl)

rotate_runs-ends_example :
    (rotate_runs nat_eqb 1 5 (7 ∷ 7 ∷ 8 ∷ []) ≡ rotate_runs nat_eqb 1 3 (7 ∷ 7 ∷ 8 ∷ []))
    × Perm (rotate_runs nat_eqb 1 5 (7 ∷ 7 ∷ 8 ∷ [])) (7 ∷ 7 ∷ 8 ∷ [])
rotate_runs-ends_example = rotate_runs-ends nat_eqb 1 5 (7 ∷ 7 ∷ 8 ∷ []) (omega arith)
