-- ===== src/Base/Sort.antt =====
-- `sort.SliceStable`, and what it promises of its result.
use mathlib.Core.List.{Perm}
use mathlib.Core.List.Perm
use mathlib.Core.Path.{◌≡◌, refl}
use mathlib.Core.Bool.{Bool, true, false}
use mathlib.Core.List.{List, [], ◌∷◌}
use mathlib.Core.Logic.{◌⊎◌, inl, inr}
use ipsupport_airllm.Base.Tests.{if◌then◌else◌, Bool-cases}
use ipsupport_airllm.Base.Lists.{All, Some, length}
use Prim.Native.Nat.{suc}
use native.Mathlib.Omega.{arith}

-- No element is less than one that stands before it.
abbrev pub IsSorted {ℓ} : {A : Type ℓ} → (A → A → Bool) → List A → Type 0
IsSorted less [] = Unit
IsSorted less (x ∷ xs) = All (λ y. less y x ≡ false) xs × IsSorted less xs

pub record IsWeakOrder {ℓ} {A : Type ℓ} (less : A → A → Bool) : Type ℓ where
  pub asymm : (a b : A) → less a b ≡ true → less b a ≡ false
  pub weak : (a b c : A) → less a b ≡ false → less b c ≡ false → less a c ≡ false

module _ {ℓ} {A : Type ℓ} (less : A → A → Bool) where
  unfoldable pub place : A → List A → List A
  place x [] = x ∷ []
  place x (y ∷ ys) = if less y x then y ∷ place x ys else x ∷ y ∷ ys

  unfoldable pub stable_sort : List A → List A
  unfolding place
  stable_sort [] = []
  stable_sort (x ∷ xs) = place x (stable_sort xs)

  place-perm : (x : A) (xs : List A) → Perm (place x xs) (x ∷ xs)
  unfolding place
  place-perm x [] = Perm.refl (x ∷ [])
  place-perm x (y ∷ ys) = elim (Bool-cases (less y x)) [
    | inl before ↦ rw before (Perm.trans (Perm.cons y (place-perm x ys)) (Perm.swap x y ys))
    | inr after ↦ rw after (Perm.refl (x ∷ y ∷ ys))
  ]

  pub stable_sort-perm : (xs : List A) → Perm (stable_sort xs) xs
  unfolding stable_sort
  stable_sort-perm [] = Perm.refl []
  stable_sort-perm (x ∷ xs) =
      Perm.trans (place-perm x (stable_sort xs)) (Perm.cons x (stable_sort-perm xs))

  place-length : (x : A) (xs : List A) → length (place x xs) ≡ suc (length xs)
  unfolding place
  place-length x [] = refl
  place-length x (y ∷ ys) = elim (Bool-cases (less y x)) [
    | inl before ↦ rw before (omega (arith, place-length x ys))
    | inr after ↦ rw after refl
  ]

  pub stable_sort-length : (xs : List A) → length (stable_sort xs) ≡ length xs
  unfolding stable_sort
  stable_sort-length [] = refl
  stable_sort-length (x ∷ xs) =
      omega (arith, place-length x (stable_sort xs), stable_sort-length xs)

  module _ (P : A → Type 0) where
    pub All-place : (x : A) (xs : List A) → P x → All P xs → All P (place x xs)
    unfolding place
    All-place x [] p ps = (p, tt)
    All-place x (y ∷ ys) p ps = elim (Bool-cases (less y x)) [
      | inl before ↦ rw before (ps.0, All-place x ys p ps.1)
      | inr after ↦ rw after (p, ps)
    ]

    pub All-stable_sort : (xs : List A) → All P xs → All P (stable_sort xs)
    unfolding stable_sort
    All-stable_sort [] ps = tt
    All-stable_sort (x ∷ xs) ps = All-place x (stable_sort xs) ps.0 (All-stable_sort xs ps.1)

    All-unplace : (x : A) (xs : List A) → All P (place x xs) → P x × All P xs
    unfolding place
    All-unplace x [] ps = ps
    All-unplace x (y ∷ ys) ps = elim (Bool-cases (less y x)) [
      | inl before ↦
          let shown : All P (y ∷ place x ys) = rw before at ps in
          let (p, rest) = All-unplace x ys shown.1 in (p, (shown.0, rest))
      | inr after ↦ rw after at ps
    ]

    -- What holds of every element of the sorted list holds of every element.
    pub All-unsort : (xs : List A) → All P (stable_sort xs) → All P xs
    unfolding stable_sort
    All-unsort [] ps = tt
    All-unsort (x ∷ xs) ps =
        let (p, rest) = All-unplace x (stable_sort xs) ps in (p, All-unsort xs rest)

    Some-place : (x : A) (xs : List A) → P x ⊎ Some P xs → Some P (place x xs)
    unfolding place
    Some-place x [] h = h
    Some-place x (y ∷ ys) h = elim (Bool-cases (less y x)) [
      | inr after ↦ rw after h
      | inl before ↦ rw before (moved (Some-place x ys) h)
    ]
      where
        moved :
            (P x ⊎ Some P ys → Some P (place x ys))
            → P x ⊎ Some P (y ∷ ys)
            → Some P (y ∷ place x ys)
        moved put (inl here) = inr (put (inl here))
        moved put (inr (inl front)) = inl front
        moved put (inr (inr later)) = inr (put (inr later))

    pub Some-stable_sort : (xs : List A) → Some P xs → Some P (stable_sort xs)
    unfolding stable_sort
    Some-stable_sort [] h = h
    Some-stable_sort (x ∷ xs) (inl here) = Some-place x (stable_sort xs) (inl here)
    Some-stable_sort (x ∷ xs) (inr later) =
        Some-place x (stable_sort xs) (inr (Some-stable_sort xs later))

  module _ (order : IsWeakOrder less) where
    least_weaken :
        (x y : A) (zs : List A)
        → less y x ≡ false
        → All (λ z. less z y ≡ false) zs
        → All (λ z. less z x ≡ false) zs
    least_weaken x y [] h all = tt
    least_weaken x y (z ∷ zs) h all = (order.weak z y x all.0 h, least_weaken x y zs h all.1)

    place-IsSorted : (x : A) (xs : List A) → IsSorted less xs → IsSorted less (place x xs)
    unfolding place
    place-IsSorted x [] s = (tt, tt)
    place-IsSorted x (y ∷ ys) (least, s) = elim (Bool-cases (less y x)) [
      | inl before ↦ rw before (
        All-place (λ z. less z y ≡ false) x ys (order.asymm y x before) least,
        place-IsSorted x ys s,
      )
      | inr after ↦ rw after ((after, least_weaken x y ys after least), (least, s))
    ]

    pub stable_sort-IsSorted : (xs : List A) → IsSorted less (stable_sort xs)
    unfolding stable_sort
    stable_sort-IsSorted [] = tt
    stable_sort-IsSorted (x ∷ xs) = place-IsSorted x (stable_sort xs) (stable_sort-IsSorted xs)
