-- ===== src/Routing/Order.antt =====
-- `orderTier`, `orderTierLCR` and `(*Plan).Ordered`. The source sorts indices into the tier by
-- the ranks that it looked up first; here the targets are sorted by the same ranks.
use ipsupport_airllm.Base.{
  ℕ, zero, suc, String, Bool, true, false, ◌&&◌, Option, none, some, List, [], ◌∷◌, ◌++◌, length,
  ltb, leb, if◌then◌else◌,
}
use ipsupport_airllm.Base.Float.{Float}
use ipsupport_airllm.Routing.Types.{
  Strategy, least_busy, lcr, LcrMode, price, availability, both, LcrRank, Target, Plan,
}
use ipsupport_airllm.Base.Sort.{stable_sort}
use ipsupport_airllm.Routing.Rotate.{rotate}

-- `free`: `none` is the -1 of a provider that is not registered.
abbrev pub freer : Option ℕ → Option ℕ → Bool
freer none b = false
freer (some a) none = true
freer (some a) (some b) = ltb b a

-- The longest prefix that passes the test, and what follows it.
module _ {ℓ} {A : Type ℓ} (test : A → Bool) where
  unfoldable pub run_of : List A → List A
  run_of [] = []
  run_of (x ∷ xs) = let rest = run_of xs in if test x then x ∷ rest else []

  unfoldable pub after_run : List A → List A
  after_run [] = []
  after_run (x ∷ xs) = let rest = after_run xs in if test x then rest else x ∷ xs

-- One maximal run of ties, rotated.
abbrev pub rotate_group {ℓ} : {A : Type ℓ} → ℕ → List A → List A
rotate_group rr group = if ltb 1 (length group) then rotate rr group else group

module _ {ℓ} {A : Type ℓ} (tied : A → A → Bool) (rr : ℕ) where
  -- The loop over the runs; the fuel is the length, of which every round uses one at least. Without fuel
  -- the rest is lost.
  unfoldable pub rotate_runs : ℕ → List A → List A
  unfolding run_of after_run
  rotate_runs zero xs = []
  rotate_runs (suc n) [] = []
  rotate_runs (suc n) (x ∷ xs) =
      rotate_group rr (x ∷ run_of (tied x) xs) ++ rotate_runs n (after_run (tied x) xs)

module _ {F : Type 0} ⦃fl : Float F⦄ (mode : LcrMode) (min_avail : F) where
  abbrev pub at_or_above : LcrRank F → Bool
  at_or_above r = fl.le min_avail r.availability

  abbrev same : Bool → Bool → Bool
  same true b = b
  same false true = false
  same false false = true

  abbrev less_in : LcrMode → LcrRank F → LcrRank F → Bool
  less_in availability a b = fl.lt b.availability a.availability
  less_in both a b =
      if same (at_or_above a) (at_or_above b) then fl.lt a.price b.price else at_or_above a
  less_in price a b = fl.lt a.price b.price

  abbrev tied_in : LcrMode → LcrRank F → LcrRank F → Bool
  tied_in availability a b = fl.eq a.availability b.availability
  tied_in both a b = same (at_or_above a) (at_or_above b) && fl.eq a.price b.price
  tied_in price a b = fl.eq a.price b.price

  -- `lessLCR`
  unfoldable pub less_lcr : LcrRank F → LcrRank F → Bool
  less_lcr a b = less_in mode a b

  -- `tiedLCR`
  unfoldable pub tied_lcr : LcrRank F → LcrRank F → Bool
  tied_lcr a b = tied_in mode a b

  abbrev pub less_ranked : (Target F → LcrRank F) → Target F → Target F → Bool
  less_ranked rank a b = less_lcr (rank a) (rank b)

  abbrev pub tied_ranked : (Target F → LcrRank F) → Target F → Target F → Bool
  tied_ranked rank a b = tied_lcr (rank a) (rank b)

  -- `orderTierLCR`
  unfoldable pub order_tier_lcr : ℕ → (Target F → LcrRank F) → List (Target F) → List (Target F)
  unfolding stable_sort rotate_runs less_lcr tied_lcr
  order_tier_lcr rr rank tier =
      if leb (length tier) 1
      then tier
      else rotate_runs (tied_ranked rank) rr (length tier) (stable_sort (less_ranked rank) tier)

module _ {F : Type 0} where
  abbrev pub busier : (String → Option ℕ) → Target F → Target F → Bool
  busier free a b = freer (free a.provider) (free b.provider)

  abbrev pub balance : Strategy → ℕ → (String → Option ℕ) → List (Target F) → List (Target F)
  balance least_busy rr free tier = stable_sort (busier free) tier
  balance _ rr free tier = rotate rr tier

  -- `orderTier`
  unfoldable pub order_tier : Strategy → ℕ → (String → Option ℕ) → List (Target F) → List (Target F)
  unfolding stable_sort rotate
  order_tier strategy rr free tier =
      if leb (length tier) 1 then tier else balance strategy rr free tier

module _ {F : Type 0} ⦃fl : Float F⦄ where
  abbrev pub order_by :
      Strategy
      → Plan F
      → ℕ
      → (String → Option ℕ)
      → (Target F → LcrRank F)
      → List (Target F)
      → List (Target F)
  order_by lcr p rr free rank tier = order_tier_lcr p.lcr_mode p.lcr_min_availability rr rank tier
  order_by strategy p rr free rank tier = order_tier strategy rr free tier

  abbrev pub flat_map_tiers :
      (List (Target F) → List (Target F)) → List (List (Target F)) → List (Target F)
  flat_map_tiers f [] = []
  flat_map_tiers f (tier ∷ tiers) = f tier ++ flat_map_tiers f tiers

  -- `(*Plan).Ordered`
  unfoldable pub ordered :
      Plan F → ℕ → (String → Option ℕ) → (Target F → LcrRank F) → List (Target F)
  unfolding order_tier_lcr order_tier
  ordered p rr free rank = flat_map_tiers (order_by p.strategy p rr free rank) p.tiers
