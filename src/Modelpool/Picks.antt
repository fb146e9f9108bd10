-- ===== src/Modelpool/Picks.antt =====
-- What `pick` takes, and when it takes nothing.
use mathlib.Core.Option
use native.Mathlib.Nat.{mod-eq_of_lt, mod-lt, add-mod_left}
use ipsupport_airllm.Base.{
  ℕ, zero, suc, ◌+◌, ◌-◌, ◌%◌, ◌^◌, ◌<◌, ◌≤◌, ◌≡◌, ◌⊎◌, refl, sym, ap, ◌∙◌, subst, inl, inr,
  Bool-cases, Option-cases, Option, none, some, List, [], ◌∷◌, length, All, leb, ltb, nat_eqb,
  arith,
}
use ipsupport_airllm.Modelpool.{Endpoint, Pool, acquire, nth, put_nth, pick_from, pick}

-- At its cap: it has one, and as many calls hold a slot.
abbrev pub IsBusy : Endpoint → Type 0
IsBusy e = (0 < e.max_conc) × (e.max_conc ≤ e.sem)

-- The endpoint had a free slot or no cap, and one more call is in flight, in a slot where there is a cap.
abbrev pub Admits : Endpoint → Endpoint → Type 0
Admits e e' =
    ((e.max_conc ≡ 0) × (e' ≡ record e { inflight = e.inflight + 1 }))
    ⊎ ((e.sem < e.max_conc) × (e' ≡ record e { sem = e.sem + 1; inflight = e.inflight + 1 }))

acquire-IsBusy : (e : Endpoint) → acquire e ≡ none → IsBusy e
unfolding acquire
acquire-IsBusy e h = ground arith

acquire-Admits : (e e' : Endpoint) → acquire e ≡ some e' → Admits e e'
unfolding acquire
acquire-Admits e e' h = elim (Bool-cases (nat_eqb e.max_conc 0)) [
  | inl free ↦ inl (ground arith, ground arith)
  | inr capped ↦ elim (Bool-cases (ltb e.sem e.max_conc)) [
    | inl slot ↦ inr (ground arith, ground arith)
    | inr full ↦ absurd (ground arith)
  ]
]

nth-some : (n : ℕ) (es : List Endpoint) → n < length es → (e : Endpoint) × (nth n es ≡ some e)
unfolding nth
nth-some n [] h = absurd (omega (arith, h))
nth-some zero (e ∷ es) h = (e, refl)
nth-some (suc n) (e ∷ es) h = nth-some n es (omega (arith, h))

All-nth :
    (P : Endpoint → Type 0) (es : List Endpoint)
    → ((n : ℕ) (e : Endpoint) → n < length es → nth n es ≡ some e → P e)
    → All P es
unfolding nth
All-nth P [] f = tt
All-nth P (e ∷ es) f =
    (f 0 e (omega arith) refl, All-nth P es (λ n x h k. f (suc n) x (omega (arith, h)) k))

-- Without a pick, the endpoint at each of the turns is busy.
pick_from-IsBusy :
    (left start i : ℕ) (eps : List Endpoint)
    → 0 < length eps
    → pick_from left start i eps ≡ none
    → (k : ℕ) (e : Endpoint) → k < left
    → nth ((start + (i + k)) % length eps) eps ≡ some e
    → IsBusy e
unfolding pick_from
pick_from-IsBusy zero start i eps some_ep h k e less found = absurd (omega (arith, less))
pick_from-IsBusy (suc left) start i eps some_ep h k e less found =
    here (λ none_later m l f. pick_from-IsBusy left start (i + 1) eps some_ep none_later m e l f)
      (nth-some ((start + i) % length eps) eps (mod-lt (start + i) some_ep)) k less found
  where
    Goal : ℕ → Type 0
    Goal k = k < suc left → nth ((start + (i + k)) % length eps) eps ≡ some e → IsBusy e

    turn :
        (x : Endpoint)
        → nth ((start + i) % length eps) eps ≡ some x
        → IsBusy x × (pick_from left start (i + 1) eps ≡ none)
    turn x at = elim (Option-cases (acquire x)) [
      | inl busy ↦ (acquire-IsBusy x busy, ground (arith, h))
      | inr (x', slot) ↦ absurd (ground (arith, h))
    ]

    Later : Type 0
    Later =
        pick_from left start (i + 1) eps ≡ none
        → (m : ℕ) → m < left
        → nth ((start + (i + 1 + m)) % length eps) eps ≡ some e
        → IsBusy e

    here :
        Later → ((x : Endpoint) × (nth ((start + i) % length eps) eps ≡ some x)) → (k : ℕ) → Goal k
    here later (x, at) zero less' found' =
        let idx : i + zero ≡ i = omega arith in
        let same : ◌≡◌ {A = Option Endpoint} (some x) (some e) =
          sym at ∙ ap (λ m. nth ((start + m) % length eps) eps) (sym idx) ∙ found' in
        subst IsBusy (ap (λ o. Option.get_or o x) same) (turn x at).0
    here later (x, at) (suc k') less' found' =
        let idx : i + suc k' ≡ i + 1 + k' = omega arith in
        later (turn x at).1 k' (omega (arith, less'))
          (ap (λ m. nth ((start + m) % length eps) eps) (sym idx) ∙ found')

-- Some turn from `start` comes to each index.
turn_of : (start j n : ℕ) → start < n → j < n → (k : ℕ) × (k < n) × ((start + (0 + k)) % n ≡ j)
turn_of start j n h l = elim (Bool-cases (leb start j)) [
  | inl after ↦
      let e : start + (0 + (j - start)) ≡ j = ground arith in
      (j - start, omega (arith, l), ap (λ m. m % n) e ∙ mod-eq_of_lt l)
  | inr before ↦
      let e : start + (0 + (j + n - start)) ≡ n + j = ground arith in
      (j + n - start, ground arith, ap (λ m. m % n) e ∙ add-mod_left n j ∙ mod-eq_of_lt l)
]

pick_from-AllBusy :
    (start : ℕ) (eps : List Endpoint)
    → start < length eps
    → pick_from (length eps) start 0 eps ≡ none
    → All IsBusy eps
pick_from-AllBusy start eps h none_found = All-nth IsBusy eps (λ j e l found.
    let (k, less, at) = turn_of start j (length eps) h l in
    pick_from-IsBusy (length eps) start 0 eps (omega (arith, h)) none_found k e less
      (ap (λ m. nth m eps) at ∙ found))

-- An index with a free slot, and the endpoints after the slot is taken
abbrev pub Takes : List Endpoint → ℕ → List Endpoint → Type 0
Takes eps at eps' =
    (e e' : Endpoint) × (nth at eps ≡ some e) × Admits e e' × (eps' ≡ put_nth at e' eps)

pick_from-Takes :
    (left start i : ℕ) (eps : List Endpoint) (at : ℕ) (eps' : List Endpoint)
    → pick_from left start i eps ≡ some (at, eps')
    → Takes eps at eps'
unfolding pick_from
pick_from-Takes zero start i eps at eps' h = absurd (ground arith)
pick_from-Takes (suc left) start i eps at eps' h =
    elim (Option-cases (nth ((start + i) % length eps) eps)) [
      | inl absent ↦ absurd (ground arith)
      | inr (e, here) ↦ elim (Option-cases (acquire e)) [
        | inl busy ↦ pick_from-Takes left start (i + 1) eps at eps' (ground arith)
        | inr (e', slot) ↦
            let idx : (start + i) % length eps ≡ at = ground arith in
            let rest : eps' ≡ put_nth ((start + i) % length eps) e' eps = ground arith in
            (
              e,
              e',
              ap (λ m. nth m eps) (sym idx) ∙ here,
              acquire-Admits e e' slot,
              rest ∙ ap (λ m. put_nth m e' eps) idx,
            )
      ]
    ]

-- What `pick` comes to
abbrev pub Picks : Pool → Option ℕ × Pool → Type 0
Picks p (none, p') = All IsBusy p.eps × (p'.eps ≡ p.eps)
Picks p (some at, p') = Takes p.eps at p'.eps

-- `pick` takes a slot of one endpoint, and leaves the others as they are; it takes none only when every
-- endpoint is at its cap, with as many slots taken, wherever the round starts.
pub pick-Picks : (p : Pool) → Picks p (pick p)
unfolding pick
pick-Picks p = elim (Bool-cases (nat_eqb (length p.eps) 0)) [
  | inl empty ↦ rw empty (no_endpoint p.eps (ground arith), refl)
  | inr some_ep ↦
      let start = (p.rr + 1) % 2 ^ 64 % length p.eps in
      rw some_ep (searched (pick_from (length p.eps) start 0 p.eps) (mod-lt _ (ground arith)) refl)
]
  where
    no_endpoint : (es : List Endpoint) → length es ≡ 0 → All IsBusy es
    no_endpoint [] h = tt
    no_endpoint (e ∷ es) h = absurd (omega (arith, h))

    first_turn : ℕ
    first_turn = (p.rr + 1) % 2 ^ 64 % length p.eps

    searched :
        (o : Option (ℕ × List Endpoint))
        → first_turn < length p.eps
        → pick_from (length p.eps) first_turn 0 p.eps ≡ o
        → Picks p (elim o as (λ _. Option ℕ × Pool) [
          | none ↦ (none, record p { rr = (p.rr + 1) % 2 ^ 64 })
          | some (at, eps) ↦ (some at, record p { rr = (p.rr + 1) % 2 ^ 64; eps = eps })
        ])
    searched none below h = (pick_from-AllBusy first_turn p.eps below h, refl)
    searched (some (at, eps)) below h = pick_from-Takes (length p.eps) first_turn 0 p.eps at eps h
