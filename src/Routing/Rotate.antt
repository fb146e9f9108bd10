-- ===== src/Routing/Rotate.antt =====
-- The rotation of a tier, or of a group of tied targets, by the round-robin tick.
use mathlib.Core.Path.{ap₂}
use native.Mathlib.Nat.{mod-eq_of_lt, mod-lt, zero-add, add-zero, suc-add, add-mod_left}
use ipsupport_airllm.Base.{
  ℕ, zero, suc, ◌+◌, ◌-◌, ◌%◌, ◌≤◌, ◌<◌, ◌≡◌, refl, sym, ◌∙◌, ◌⊎◌, inl, inr, List, [], ◌∷◌, ◌++◌,
  Option, none, some, length, take, drop, arith, ap, Option-cases,
}

module _ {ℓ} {A : Type ℓ} where
  abbrev pub get_elem? : List A → ℕ → Option A
  get_elem? [] i = none
  get_elem? (x ∷ xs) zero = some x
  get_elem? (x ∷ xs) (suc i) = get_elem? xs i

  -- `out = append(out, tier[i])`; an index out of range does not occur.
  abbrev pub append_at : List A → ℕ → List A → List A
  append_at xs i rest = elim (get_elem? xs i) [ none ↦ rest | some x ↦ x ∷ rest ]

  -- The loop over `i`, with the rounds left.
  unfoldable pub rotate_from : List A → ℕ → ℕ → ℕ → List A
  rotate_from xs rot zero i = []
  rotate_from xs rot (suc m) i = append_at xs ((rot + i) % length xs) (rotate_from xs rot m (i + 1))

  -- `tier[(rot+i) % n]` for each `i`, where `rot = rr % n`.
  unfoldable pub rotate : ℕ → List A → List A
  unfolding rotate_from
  rotate rr xs = rotate_from xs (rr % length xs) (length xs) 0

  drop-step :
      (xs : List A) (j : ℕ)
      → j < length xs
      → (x : A) × (get_elem? xs j ≡ some x) × (drop j xs ≡ x ∷ drop (suc j) xs)
  drop-step [] j h = absurd (omega arith)
  drop-step (x ∷ xs) zero h = (x, refl, refl)
  drop-step (x ∷ xs) (suc j) h = drop-step xs j (omega arith)

  append_at-some :
      (xs : List A) (i : ℕ) (x : A) (rest : List A)
      → get_elem? xs i ≡ some x
      → append_at xs i rest ≡ x ∷ rest
  append_at-some xs i x rest e = rw (e, append_at)

  append_at-append :
      (xs : List A) (i : ℕ) (rest tail : List A)
      → append_at xs i (rest ++ tail) ≡ append_at xs i rest ++ tail
  append_at-append xs i rest tail = elim (Option-cases (get_elem? xs i)) [
    | inl missing ↦ rw (missing, append_at)
    | inr (x, found) ↦ rw (found, append_at)
  ]

  take-all : (n : ℕ) (xs : List A) → length xs ≤ n → take n xs ≡ xs
  take-all zero [] h = refl
  take-all zero (x ∷ xs) h = absurd (omega arith)
  take-all (suc n) [] h = refl
  take-all (suc n) (x ∷ xs) h = ap (◌∷◌ x) (take-all n xs (omega arith))

  length-drop : (n : ℕ) (xs : List A) → length (drop n xs) ≡ length xs - n
  length-drop zero xs = omega arith
  length-drop (suc n) [] = omega arith
  length-drop (suc n) (x ∷ xs) = omega (arith, length-drop n xs)

  -- Rounds whose indices run through `j`, `j + 1`, … inside the list.
  rotate_from-segment :
      (xs : List A) (rot m i j : ℕ)
      → ((rot + i) ≡ j) ⊎ ((rot + i) ≡ length xs + j)
      → j + m ≤ length xs
      → rotate_from xs rot m i ≡ take m (drop j xs)
  unfolding rotate_from
  rotate_from-segment xs rot zero i j at fits = refl
  rotate_from-segment xs rot (suc m) i j at fits =
      let (x, found, rest) = drop-step xs j (omega arith) in
      let here : (rot + i) % length xs ≡ j = index at (omega arith) in
      rw (here, append_at-some xs j x (rotate_from xs rot m (i + 1)) found, rest)
        (ap (◌∷◌ x) (rotate_from-segment xs rot m (i + 1) (suc j) (omega arith) (omega arith)))
    where
      index :
          ((rot + i) ≡ j) ⊎ ((rot + i) ≡ length xs + j) → j < length xs → (rot + i) % length xs ≡ j
      index (inl h) lt = rw h (mod-eq_of_lt lt)
      index (inr h) lt = rw h (add-mod_left (length xs) j ∙ mod-eq_of_lt lt)

  rotate_from-append :
      (xs : List A) (rot m m' i : ℕ)
      → rotate_from xs rot (m + m') i ≡ rotate_from xs rot m i ++ rotate_from xs rot m' (i + m)
  unfolding rotate_from
  rotate_from-append xs rot zero m' i =
      ap₂ (λ a b. rotate_from xs rot a b) (zero-add m') (sym (add-zero i))
  rotate_from-append xs rot (suc m) m' i =
      rw (suc-add, rotate_from-append xs rot m m' (i + 1), one_more)
        (append_at-append xs ((rot + i) % length xs) (rotate_from xs rot m (i + 1))
          (rotate_from xs rot m' (i + suc m)))
    where
      one_more : i + 1 + m ≡ i + suc m
      one_more = omega arith

  -- The loop over indices modulo the length puts the part from `rr` modulo the length on in front of
  -- the part before it.
  pub rotate-eq-append :
      (rr : ℕ) (xs : List A)
      → 0 < length xs
      → rotate rr xs ≡ drop (rr % length xs) xs ++ take (rr % length xs) xs
  unfolding rotate
  rotate-eq-append rr xs pos =
      let r = rr % length xs in
      let below : r < length xs = mod-lt rr pos in
      let split : length xs ≡ (length xs - r) + r = omega arith in
      let start : 0 + (length xs - r) ≡ length xs - r = omega arith in
      ap (λ m. rotate_from xs r m 0) split
      ∙ rotate_from-append xs r (length xs - r) r 0
      ∙ ap (λ i. rotate_from xs r (length xs - r) 0 ++ rotate_from xs r r i) start
      ∙ ap₂ ◌++◌
          (rotate_from-segment xs r (length xs - r) 0 r (inl (omega arith)) (omega arith)
            ∙ take-all (length xs - r) (drop r xs) (omega (arith, length-drop r xs)))
          (rotate_from-segment xs r r (length xs - r) 0 (inr (omega arith)) (omega arith))
