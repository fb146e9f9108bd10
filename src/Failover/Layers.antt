-- ===== src/Failover/Layers.antt =====
-- internal/httpapi/tier_breaker.go: which settings a tier's breaker runs under.
use mathlib.Core.Option
use ipsupport_airllm.Base.{
  ℕ, ◌≡◌, refl, ◌*◌, ◌<◌, Bool, true, false, Option, none, some, List, [], ◌∷◌, map, All,
  All-append, All-weaken, inl, inr, arith, Bool-cases, if◌then◌else◌, nat_eqb,
}
use ipsupport_airllm.Base.Float.{Float}
use ipsupport_airllm.Base.Clock.{millisecond}
use ipsupport_airllm.Routing.Types.{BreakerOptions, Target, Plan, validate}
use ipsupport_airllm.Base.Sort.{stable_sort, All-stable_sort}
use ipsupport_airllm.Failover.Policy.{
  FailoverConfig, apply_failover, unset_options, pick, tier_targets_in, tier_targets, own_options,
  target_before, breaker_layers, breaker_settings,
}

abbrev pub IfSet : {A : Type 0} → (A → Type 0) → Option A → Type 0
IfSet P none = Unit
IfSet P (some v) = P v

abbrev Positive : Option ℕ → Type 0
Positive = IfSet (λ v. 0 < v)

abbrev ms : Option ℕ → Option ℕ
ms o = Option.map (λ v. v * millisecond) o

abbrev pub FirstOf {ℓ} : {A : Type ℓ} → Option A → (A → Type ℓ) → A → Type ℓ
FirstOf none rest v = rest v
FirstOf (some w) rest v = v ≡ w

-- The value in effect: the first one that is set, or the default when none is.
abbrev pub First {ℓ} : {L A : Type ℓ} → (L → Option A) → List L → A → A → Type ℓ
First get [] default v = v ≡ default
First get (l ∷ ls) default v = FirstOf (get l) (First get ls default) v

module _ {L A : Type 0} (get : L → Option A) where
  pub pick-First : (ls : List L) (default : A) → First get ls default (pick get ls default)
  unfolding pick
  pick-First [] default = refl
  pick-First (l ∷ ls) default = chosen (get l) (pick-First ls default)
    where
      chosen :
          (o : Option A)
          → First get ls default (pick get ls default)
          → FirstOf o (First get ls default) (Option.get_or o (pick get ls default))
      chosen none rest = rest
      chosen (some v) rest = refl

  -- What holds of the default and of every value that is set holds of the one in effect.
  pick-holds :
      (P : A → Type 0) (ls : List L) (default : A)
      → All (λ l. IfSet P (get l)) ls
      → P default
      → P (pick get ls default)
  unfolding pick
  pick-holds P [] default all p = p
  pick-holds P (l ∷ ls) default all p = chosen (get l) all.0 (pick-holds P ls default all.1 p)
    where
      chosen :
          (o : Option A)
          → IfSet P o
          → P (pick get ls default)
          → P (Option.get_or o (pick get ls default))
      chosen none set rest = rest
      chosen (some v) set rest = set

module _ {A : Type 0} (P : A → Type 0) where
  All-map : {B : Type 0} (f : B → A) (xs : List B) → All (λ x. P (f x)) xs → All P (map f xs)
  All-map f [] ps = tt
  All-map f (x ∷ xs) ps = (ps.0, All-map f xs ps.1)

module _ {F : Type 0} ⦃fl : Float F⦄ where
  abbrev pub IsValid : BreakerOptions F → Type 0
  IsValid o = validate o ≡ true

  abbrev pub OwnValid : Target F → Type 0
  OwnValid t = IsValid (own_options t)

  unset-IsValid : (o : BreakerOptions F) → o ≡ unset_options → IsValid o
  unfolding validate
  unset-IsValid o e = rw e

  All-tier_targets_in :
      (tier : ℕ) (ts : List (Target F)) → All OwnValid ts → All OwnValid (tier_targets_in tier ts)
  unfolding tier_targets_in
  All-tier_targets_in tier [] h = tt
  All-tier_targets_in tier (t ∷ ts) h =
      keeps t.options.breaker (nat_eqb t.tier tier) (All-tier_targets_in tier ts h.1)
    where
      keeps :
          (o : Option (BreakerOptions F)) (here : Bool)
          → All OwnValid (tier_targets_in tier ts)
          → All OwnValid (elim o [
            | none ↦ tier_targets_in tier ts
            | some _ ↦ if here then t ∷ tier_targets_in tier ts else tier_targets_in tier ts
          ])
      keeps none here rest = rest
      keeps (some o) true rest = (h.0, rest)
      keeps (some o) false rest = rest

  All-tier_targets :
      (tier : ℕ) (tiers : List (List (Target F)))
      → All (All OwnValid) tiers
      → All OwnValid (tier_targets tier tiers)
  unfolding tier_targets
  All-tier_targets tier [] h = tt
  All-tier_targets tier (ts ∷ tiers) h =
      All-append OwnValid (tier_targets_in tier ts) (tier_targets tier tiers)
        (All-tier_targets_in tier ts h.0) (All-tier_targets tier tiers h.1)

  apply_failover-IsValid : (cfg : FailoverConfig F) → IsValid (apply_failover cfg).breaker
  unfolding apply_failover
  apply_failover-IsValid cfg = elim (Bool-cases (validate cfg.breaker)) [
    | inl fine ↦ rw fine fine
    | inr bad ↦ rw bad (unset-IsValid unset_options refl)
  ]

  layers-IsValid :
      (cfg : FailoverConfig F) (plan : Plan F) (tier : ℕ)
      → All (All OwnValid) plan.tiers
      → All IsValid (breaker_layers (apply_failover cfg) plan tier)
  unfolding breaker_layers
  layers-IsValid cfg plan tier h =
      All-append IsValid _ (_ ∷ [])
        (All-map IsValid own_options (stable_sort target_before (tier_targets tier plan.tiers)) (
          All-stable_sort target_before OwnValid (tier_targets tier plan.tiers)
            (All-tier_targets tier plan.tiers h)))
        (apply_failover-IsValid cfg, tt)

  valid-Positive :
      (o : BreakerOptions F)
      → IsValid o
      → Positive o.failures
        × Positive (ms o.window_ms)
        × Positive o.min_requests
        × Positive (ms o.cooldown_ms)
        × Positive (ms o.max_cooldown_ms)
        × Positive (ms o.stable_ms)
  unfolding validate
  valid-Positive o h = ground arith

  -- When every target's breaker options are valid, no tier's breaker has a threshold, a window or a
  -- cooldown of 0, whatever the gateway's own settings say: options that are out of range there are
  -- not used.
  pub breaker_settings-positive :
      (cfg : FailoverConfig F) (plan : Plan F) (tier : ℕ)
      → All (All OwnValid) plan.tiers
      → let set = breaker_settings (apply_failover cfg) plan tier in
        (0 < set.failures)
        × (0 < set.window)
        × (0 < set.min_requests)
        × (0 < set.cooldown)
        × (0 < set.max_cooldown)
        × (0 < set.stable)
  unfolding breaker_settings
  breaker_settings-positive cfg plan tier h =
      let layers = breaker_layers (apply_failover cfg) plan tier in
      let valid = layers-IsValid cfg plan tier h in
      let chosen =
        λ (get : BreakerOptions F → Option ℕ)
            (positive : (o : BreakerOptions F) → IsValid o → Positive (get o)) (default : ℕ)
            (pos : 0 < default).
          pick-holds get (λ v. 0 < v) layers default (All-weaken positive layers valid) pos in
      (
        chosen (λ o. o.failures) (λ o v. (valid-Positive o v).0) 3 (omega arith),
        chosen (λ o. ms o.window_ms) (λ o v. (valid-Positive o v).1) 30000000000 (omega arith),
        chosen (λ o. o.min_requests) (λ o v. (valid-Positive o v).2) 5 (omega arith),
        chosen (λ o. ms o.cooldown_ms) (λ o v. (valid-Positive o v).3) 60000000000 (omega arith),
        chosen (λ o. ms o.max_cooldown_ms) (λ o v. (valid-Positive o v).4) 1800000000000
            (omega arith),
        chosen (λ o. ms o.stable_ms) (λ o v. (valid-Positive o v).5) 600000000000 (omega arith),
      )
