-- ===== src/Routing/Fuel.antt =====
-- The loop over runs of ties ends: the number of targets is enough turns for it.
use mathlib.Core.List.{Perm}
use ipsupport_airllm.Base.{
  ℕ, zero, suc, ◌≤◌, ◌≡◌, refl, ap, Bool, List, [], ◌∷◌, ◌++◌, length, arith,
}
use ipsupport_airllm.Routing.Order.{run_of, after_run, rotate_group, rotate_runs}
use ipsupport_airllm.Routing.Permutes.{after_run-length, rotate_runs-perm}

module _ {ℓ} {A : Type ℓ} where
  rotate_runs-same :
      (tied : A → A → Bool) (rr n m : ℕ) (xs : List A)
      → length xs ≤ n
      → length xs ≤ m
      → rotate_runs tied rr n xs ≡ rotate_runs tied rr m xs
  unfolding rotate_runs
  rotate_runs-same tied rr zero zero xs h k = refl
  rotate_runs-same tied rr (suc n) (suc m) [] h k = refl
  rotate_runs-same tied rr zero (suc m) [] h k = refl
  rotate_runs-same tied rr (suc n) zero [] h k = refl
  rotate_runs-same tied rr zero (suc m) (x ∷ xs) h k = absurd (omega (arith, h))
  rotate_runs-same tied rr (suc n) zero (x ∷ xs) h k = absurd (omega (arith, k))
  rotate_runs-same tied rr (suc n) (suc m) (x ∷ xs) h k =
      let shorter = after_run-length (tied x) xs in
      ap (λ rest. rotate_group rr (x ∷ run_of (tied x) xs) ++ rest)
        (rotate_runs-same tied rr n m (after_run (tied x) xs) (omega (arith, h, shorter))
          (omega (arith, k, shorter)))

  -- As many turns as there are targets are enough for the loop over runs of ties: however many more it
  -- has, it ends with every target in its order, as often as it was given, where a loop out of turns would
  -- have lost the rest.
  pub rotate_runs-ends :
      (tied : A → A → Bool) (rr n : ℕ) (xs : List A)
      → length xs ≤ n
      → (rotate_runs tied rr n xs ≡ rotate_runs tied rr (length xs) xs)
        × Perm (rotate_runs tied rr n xs) xs
  rotate_runs-ends tied rr n xs h =
      (rotate_runs-same tied rr n (length xs) xs h (omega arith), rotate_runs-perm tied rr n xs h)
