-- ===== src/Routing/Ranks.antt =====
-- The `lcr` order of one tier: sorted by price, by availability, or by price on each side of the
-- availability threshold, with ties rotated inside their own run only.
use ipsupport_airllm.Base.{
  ℕ, zero, suc, ◌%◌, ◌≡◌, Bool, true, false, List, [], ◌∷◌, ◌++◌, length, take, drop, All,
  All-append, ltb, leb, arith, Bool-cases, inl, inr,
}
use ipsupport_airllm.Base.Float.{Float, IsOrdered}
use ipsupport_airllm.Routing.Types.{LcrMode, LcrRank, Target}
use ipsupport_airllm.Base.Sort.{IsSorted, IsWeakOrder, stable_sort, stable_sort-IsSorted}
use ipsupport_airllm.Routing.Rotate.{rotate-eq-append}
use ipsupport_airllm.Routing.Order.{
  run_of, after_run, rotate_group, rotate_runs, less_lcr, tied_lcr, less_ranked, tied_ranked,
  order_tier_lcr,
}

module _ {ℓ} {A : Type ℓ} (P : A → Type 0) where
  All-take : (n : ℕ) (xs : List A) → All P xs → All P (take n xs)
  All-take zero xs h = tt
  All-take (suc n) [] h = tt
  All-take (suc n) (x ∷ xs) h = (h.0, All-take n xs h.1)

  All-drop : (n : ℕ) (xs : List A) → All P xs → All P (drop n xs)
  All-drop zero xs h = h
  All-drop (suc n) [] h = tt
  All-drop (suc n) (x ∷ xs) h = All-drop n xs h.1

  All-rotate_group : (rr : ℕ) (xs : List A) → All P xs → All P (rotate_group rr xs)
  All-rotate_group rr xs h = elim (Bool-cases (ltb 1 (length xs))) [
    | inl many ↦
        rw (many, rotate-eq-append rr xs (ground arith))
          (All-append P (drop (rr % length xs) xs) (take (rr % length xs) xs)
            (All-drop (rr % length xs) xs h) (All-take (rr % length xs) xs h))
    | inr few ↦ rw few h
  ]

  All-run_of : (test : A → Bool) (xs : List A) → All P xs → All P (run_of test xs)
  unfolding run_of
  All-run_of test [] h = tt
  All-run_of test (x ∷ xs) h = elim (Bool-cases (test x)) [
    | inl passes ↦ rw passes (h.0, All-run_of test xs h.1)
    | inr stops ↦ rw stops tt
  ]

  All-after_run : (test : A → Bool) (xs : List A) → All P xs → All P (after_run test xs)
  unfolding after_run
  All-after_run test [] h = tt
  All-after_run test (x ∷ xs) h = elim (Bool-cases (test x)) [
    | inl passes ↦ rw passes (All-after_run test xs h.1)
    | inr stops ↦ rw stops h
  ]

  All-rotate_runs :
      (tied : A → A → Bool) (rr n : ℕ) (xs : List A) → All P xs → All P (rotate_runs tied rr n xs)
  unfolding rotate_runs
  All-rotate_runs tied rr zero xs h = tt
  All-rotate_runs tied rr (suc n) [] h = tt
  All-rotate_runs tied rr (suc n) (x ∷ xs) h =
      All-append P (rotate_group rr (x ∷ run_of (tied x) xs))
        (rotate_runs tied rr n (after_run (tied x) xs))
        (All-rotate_group rr (x ∷ run_of (tied x) xs) (h.0, All-run_of (tied x) xs h.1))
        (All-rotate_runs tied rr n (after_run (tied x) xs) (All-after_run (tied x) xs h.1))

module _ {ℓ} {A : Type ℓ} (less tied : A → A → Bool) (order : IsWeakOrder less)
    (ties : (a b : A) → tied a b ≡ true → (less a b ≡ false) × (less b a ≡ false)) where
  -- Neither before nor after `x`.
  abbrev Level : A → A → Type 0
  Level x y = (less x y ≡ false) × (less y x ≡ false)

  Level-self : (x : A) → Level x x
  Level-self x = elim (Bool-cases (less x x)) [
    | inl before ↦ let after : less x x ≡ false = order.asymm x x before in (after, after)
    | inr after ↦ (after, after)
  ]

  All-Level_run : (x : A) (xs : List A) → All (Level x) (run_of (tied x) xs)
  unfolding run_of
  All-Level_run x [] = tt
  All-Level_run x (y ∷ ys) = elim (Bool-cases (tied x y)) [
    | inl tie ↦ rw tie (ties x y tie, All-Level_run x ys)
    | inr stop ↦ rw stop tt
  ]

  All-not_less :
      (x y : A) (zs : List A) → Level x y → All (Level x) zs → All (λ z. less z y ≡ false) zs
  All-not_less x y [] l all = tt
  All-not_less x y (z ∷ zs) l all = (order.weak z x y all.0.1 l.0, All-not_less x y zs l all.1)

  Level-IsSorted : (x : A) (zs : List A) → All (Level x) zs → IsSorted less zs
  Level-IsSorted x [] all = tt
  Level-IsSorted x (z ∷ zs) all = (All-not_less x z zs all.0 all.1, Level-IsSorted x zs all.1)

  All-after-Level :
      (x y : A) (zs : List A)
      → Level x y
      → All (λ z. less z x ≡ false) zs
      → All (λ z. less z y ≡ false) zs
  All-after-Level x y [] l all = tt
  All-after-Level x y (z ∷ zs) l all = (order.weak z x y all.0 l.0, All-after-Level x y zs l all.1)

  append-IsSorted :
      (x : A) (ys zs : List A)
      → All (Level x) ys
      → All (λ z. less z x ≡ false) zs
      → IsSorted less zs
      → IsSorted less (ys ++ zs)
  append-IsSorted x [] zs level after s = s
  append-IsSorted x (y ∷ ys) zs level after s = (
    All-append (λ z. less z y ≡ false) ys zs (All-not_less x y ys level.0 level.1)
        (All-after-Level x y zs level.0 after),
    append-IsSorted x ys zs level.1 after s,
  )

  after_run-IsSorted :
      (test : A → Bool) (xs : List A) → IsSorted less xs → IsSorted less (after_run test xs)
  unfolding after_run
  after_run-IsSorted test [] s = tt
  after_run-IsSorted test (x ∷ xs) s = elim (Bool-cases (test x)) [
    | inl passes ↦ rw passes (after_run-IsSorted test xs s.1)
    | inr stops ↦ rw stops s
  ]

  rotate_runs-IsSorted :
      (rr n : ℕ) (xs : List A) → IsSorted less xs → IsSorted less (rotate_runs tied rr n xs)
  unfolding rotate_runs
  rotate_runs-IsSorted rr zero xs s = tt
  rotate_runs-IsSorted rr (suc n) [] s = tt
  rotate_runs-IsSorted rr (suc n) (x ∷ xs) s =
      append-IsSorted x (rotate_group rr (x ∷ run_of (tied x) xs))
        (rotate_runs tied rr n (after_run (tied x) xs))
        (All-rotate_group (Level x) rr (x ∷ run_of (tied x) xs) (Level-self x, All-Level_run x xs))
        (All-rotate_runs (λ z. less z x ≡ false) tied rr n (after_run (tied x) xs)
          (All-after_run (λ z. less z x ≡ false) (tied x) xs s.0))
        (rotate_runs-IsSorted rr n (after_run (tied x) xs) (after_run-IsSorted (tied x) xs s.1))

module _ {F : Type 0} ⦃fl : Float F⦄ (law : IsOrdered fl) (mode : LcrMode) (least : F) where
  less_lcr-asymm :
      (a b : LcrRank F) → less_lcr mode least a b ≡ true → less_lcr mode least b a ≡ false
  unfolding less_lcr
  less_lcr-asymm a b h =
      ground (arith, law.lt-asymm a.price b.price, law.lt-asymm b.availability a.availability)

  less_lcr-weak :
      (a b c : LcrRank F)
      → less_lcr mode least a b ≡ false
      → less_lcr mode least b c ≡ false
      → less_lcr mode least a c ≡ false
  unfolding less_lcr
  less_lcr-weak a b c h k = ground (
    arith,
    law.lt-weak a.price b.price c.price,
    law.lt-weak c.availability b.availability a.availability,
  )

  tied_lcr-level :
      (a b : LcrRank F)
      → tied_lcr mode least a b ≡ true
      → (less_lcr mode least a b ≡ false) × (less_lcr mode least b a ≡ false)
  unfolding less_lcr tied_lcr
  tied_lcr-level a b h =
      ground (arith, law.eq-not-lt a.price b.price, law.eq-not-lt a.availability b.availability)

  module _ (rank : Target F → LcrRank F) where
    less_ranked-IsWeakOrder : IsWeakOrder (less_ranked mode least rank)
    less_ranked-IsWeakOrder = record {
      asymm = λ a b. less_lcr-asymm (rank a) (rank b);
      weak = λ a b c. less_lcr-weak (rank a) (rank b) (rank c);
    }

    short-IsSorted :
        (tier : List (Target F))
        → leb (length tier) 1 ≡ true
        → IsSorted (less_ranked mode least rank) tier
    short-IsSorted [] h = tt
    short-IsSorted (t ∷ []) h = (tt, tt)
    short-IsSorted (t ∷ t' ∷ ts) h = absurd (ground arith)

    -- No target of a tier is tried before one that `lessLCR` puts ahead of it, whatever the tick: the
    -- rotation of ties never moves a target past a better or a worse one.
    pub order_tier_lcr-IsSorted :
        (rr : ℕ) (tier : List (Target F))
        → IsSorted (less_ranked mode least rank) (order_tier_lcr mode least rr rank tier)
    unfolding order_tier_lcr
    order_tier_lcr-IsSorted rr tier = elim (Bool-cases (leb (length tier) 1)) [
      | inl few ↦ rw few (short-IsSorted tier few)
      | inr many ↦ rw many (
          rotate_runs-IsSorted (less_ranked mode least rank) (tied_ranked mode least rank)
            less_ranked-IsWeakOrder (λ a b. tied_lcr-level (rank a) (rank b)) rr (length tier)
            (stable_sort (less_ranked mode least rank) tier)
            (stable_sort-IsSorted (less_ranked mode least rank) less_ranked-IsWeakOrder tier))
    ]
