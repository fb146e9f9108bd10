-- ===== src/Routing/Permutes.antt =====
-- Whatever its strategy, an ordering tries every target of the plan once, tier after tier.
use mathlib.Core.List.{Perm, perm_append_comm}
use mathlib.Core.List.Perm
use ipsupport_airllm.Base.{
  ℕ, zero, suc, ◌%◌, ◌<◌, ◌≤◌, ◌≡◌, refl, ap, subst, String, Bool, Option, List, [], ◌∷◌, ◌++◌,
  length, take, drop, take-append-drop, ltb, leb, arith, Bool-cases, inl, inr,
}
use ipsupport_airllm.Base.Float.{Float}
use ipsupport_airllm.Routing.Types.{
  Strategy, round_robin, least_busy, lcr, LcrMode, LcrRank, Target, Plan,
}
use ipsupport_airllm.Base.Sort.{stable_sort, stable_sort-perm, stable_sort-length}
use ipsupport_airllm.Routing.Rotate.{rotate, rotate-eq-append}
use ipsupport_airllm.Routing.Order.{
  run_of, after_run, rotate_group, rotate_runs, less_ranked, tied_ranked, order_tier_lcr, busier,
  balance, order_tier, order_by, flat_map_tiers, ordered,
}

module _ {ℓ} {A : Type ℓ} where
  rotate-perm : (rr : ℕ) (xs : List A) → 0 < length xs → Perm (rotate rr xs) xs
  rotate-perm rr xs pos = rw (rotate-eq-append rr xs pos) (
      Perm.trans (perm_append_comm (drop (rr % length xs) xs) (take (rr % length xs) xs)) (
        subst (λ ys. Perm (take (rr % length xs) xs ++ drop (rr % length xs) xs) ys)
          (take-append-drop (rr % length xs) xs) (Perm.refl _)))

  rotate_group-perm : (rr : ℕ) (xs : List A) → Perm (rotate_group rr xs) xs
  rotate_group-perm rr xs = elim (Bool-cases (ltb 1 (length xs))) [
    | inl many ↦ rw many (rotate-perm rr xs (ground arith))
    | inr few ↦ rw few (Perm.refl xs)
  ]

  run-append-after : (test : A → Bool) (xs : List A) → run_of test xs ++ after_run test xs ≡ xs
  unfolding run_of after_run
  run-append-after test [] = refl
  run-append-after test (x ∷ xs) = elim (Bool-cases (test x)) [
    | inl yes' ↦ rw yes' (ap (◌∷◌ x) (run-append-after test xs))
    | inr no' ↦ rw no'
  ]

  pub after_run-length : (test : A → Bool) (xs : List A) → length (after_run test xs) ≤ length xs
  unfolding after_run
  after_run-length test [] = omega arith
  after_run-length test (x ∷ xs) = elim (Bool-cases (test x)) [
    | inl passes ↦ rw passes (omega (arith, after_run-length test xs))
    | inr stops ↦ rw stops (omega arith)
  ]

  pub rotate_runs-perm :
      (tied : A → A → Bool) (rr n : ℕ) (xs : List A)
      → length xs ≤ n
      → Perm (rotate_runs tied rr n xs) xs
  unfolding rotate_runs
  rotate_runs-perm tied rr zero [] h = Perm.refl []
  rotate_runs-perm tied rr zero (x ∷ xs) h = absurd (omega (arith, h))
  rotate_runs-perm tied rr (suc n) [] h = Perm.refl []
  rotate_runs-perm tied rr (suc n) (x ∷ xs) h =
      subst (λ ys. Perm (rotate_runs tied rr (suc n) (x ∷ xs)) (x ∷ ys))
        (run-append-after (tied x) xs)
        (Perm.append (rotate_group-perm rr (x ∷ run_of (tied x) xs)) (
          rotate_runs-perm tied rr n (after_run (tied x) xs)
            (omega (arith, h, after_run-length (tied x) xs))))

-- The targets of a plan, in the order of its tiers.
abbrev pub all_targets : {F : Type 0} → List (List (Target F)) → List (Target F)
all_targets [] = []
all_targets (tier ∷ tiers) = tier ++ all_targets tiers

module _ {F : Type 0} ⦃fl : Float F⦄ where
  order_tier_lcr-perm :
      (mode : LcrMode) (least : F) (rr : ℕ) (rank : Target F → LcrRank F) (tier : List (Target F))
      → Perm (order_tier_lcr mode least rr rank tier) tier
  unfolding order_tier_lcr
  order_tier_lcr-perm mode least rr rank tier = elim (Bool-cases (leb (length tier) 1)) [
    | inl few ↦ rw few (Perm.refl tier)
    | inr many ↦ rw many (
        Perm.trans
          (rotate_runs-perm (tied_ranked mode least rank) rr (length tier)
            (stable_sort (less_ranked mode least rank) tier)
            (omega (arith, stable_sort-length (less_ranked mode least rank) tier)))
          (stable_sort-perm (less_ranked mode least rank) tier))
  ]

  balance-perm :
      (strategy : Strategy) (rr : ℕ) (free : String → Option ℕ) (tier : List (Target F))
      → 0 < length tier
      → Perm (balance strategy rr free tier) tier
  balance-perm least_busy rr free tier pos = stable_sort-perm (busier free) tier
  balance-perm _ rr free tier pos = rotate-perm rr tier pos

  order_tier-perm :
      (strategy : Strategy) (rr : ℕ) (free : String → Option ℕ) (tier : List (Target F))
      → Perm (order_tier strategy rr free tier) tier
  unfolding order_tier
  order_tier-perm strategy rr free tier = elim (Bool-cases (leb (length tier) 1)) [
    | inl few ↦ rw few (Perm.refl tier)
    | inr many ↦ rw many (balance-perm strategy rr free tier (ground arith))
  ]

  order_by-perm :
      (strategy : Strategy) (p : Plan F) (rr : ℕ) (free : String → Option ℕ)
      (rank : Target F → LcrRank F) (tier : List (Target F))
      → Perm (order_by strategy p rr free rank tier) tier
  order_by-perm lcr p rr free rank tier =
      order_tier_lcr-perm p.lcr_mode p.lcr_min_availability rr rank tier
  order_by-perm round_robin p rr free rank tier = order_tier-perm round_robin rr free tier
  order_by-perm least_busy p rr free rank tier = order_tier-perm least_busy rr free tier

  flat_map_tiers-perm :
      (f : List (Target F) → List (Target F))
      → ((tier : List (Target F)) → Perm (f tier) tier)
      → (tiers : List (List (Target F))) → Perm (flat_map_tiers f tiers) (all_targets tiers)
  flat_map_tiers-perm f each [] = Perm.refl []
  flat_map_tiers-perm f each (tier ∷ tiers) =
      Perm.append (each tier) (flat_map_tiers-perm f each tiers)

  -- Whatever the strategy, the tick, the load and the ranks, the order of a request holds every
  -- target of the plan as often as the plan does, and no other.
  pub ordered-perm :
      (p : Plan F) (rr : ℕ) (free : String → Option ℕ) (rank : Target F → LcrRank F)
      → Perm (ordered p rr free rank) (all_targets p.tiers)
  unfolding ordered
  ordered-perm p rr free rank =
      flat_map_tiers-perm (order_by p.strategy p rr free rank)
        (order_by-perm p.strategy p rr free rank) p.tiers
