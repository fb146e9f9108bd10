-- ===== src/Affinity/Uses.antt =====
-- internal/affinity/affinity.go: what a replica does with its pins after one of them: it looks pins up, pins
-- again and drops pins.
use Prim.Native.Nat.{max}
use ipsupport_airllm.Base.{
  ℕ, ◌+◌, ◌≤◌, ◌<◌, ◌≡◌, ◌⊎◌, refl, sym, subst, ◌∙◌, Bool, true, false, Option, none, some, List,
  [], ◌∷◌, if◌then◌else◌, ◌==◌, ◌&&◌, leb, ltb, length, arith, Bool-cases, inl, inr,
}
use ipsupport_airllm.Base.Clock.{Time, Duration}
use ipsupport_airllm.Base.Dict.{Dict, lookup, insert, delete, lookup-insert, lookup-delete}
use ipsupport_airllm.Affinity.{
  Key, key_eq, Pin, Store, Access, Answer, answered, failed, abandoned, local_pinned, drop_expired,
  sweep, sweep_at, reached, local_pin, pinned, pinned_by, pin, pin_by, forget, forget_by,
  use_remote,
}
use ipsupport_airllm.Affinity.Pins.{raised_tier, Fresh, Distinct, drop_expired-Fresh, local_pin_lem}

-- A session that is told of a tier no earlier than the given one.
abbrev pub NoEarlier : ℕ → Option ℕ → Type 0
NoEarlier tier o = (u : ℕ) × (o ≡ some u) × (tier ≤ u)

pub data Use : Type 0 where
  looked : Access → Time → Key → Use
  repinned : Access → Time → Key → ℕ → Duration → Use
  dropped : Access → Key → Use

unfoldable pub use_once : Use → Store → Store
use_once (looked a t j) s = (pinned a t j s).0
use_once (repinned a t j tier ttl) s = (pin a t j tier ttl s).0
use_once (dropped a j) s = forget a j s

unfoldable pub uses : List Use → Store → Store
unfolding use_once
uses [] s = s
uses (u ∷ us) s = uses us (use_once u s)

-- From `clock` on to `later`, pins are made in the order of time, those of the session are to last until
-- `until` at least, and the session is not dropped.
abbrev pub InOrder : Key → Time → Time → Time → List Use → Type 0
InOrder k later until clock [] = clock ≤ later
InOrder k later until clock (looked a t j ∷ us) = InOrder k later until clock us
InOrder k later until clock (repinned a t j tier ttl ∷ us) =
    (clock ≤ t) × (((j == k) ≡ false) ⊎ (until ≤ t + ttl)) × InOrder k later until t us
InOrder k later until clock (dropped a j ∷ us) = ((j == k) ≡ false) × InOrder k later until clock us

pin_by-local :
    (o : Answer) (a : Access) (k : Key) (tier : ℕ) (ttl : Duration) (done : Store × Bool)
    → (pin_by o a k tier ttl done).0.local ≡ done.0.local
pin_by-local answered a k tier ttl done = refl
pin_by-local failed a k tier ttl done = refl
pin_by-local abandoned a k tier ttl done = refl

pub pin-local :
    (a : Access) (now : Time) (k : Key) (tier : ℕ) (ttl : Duration) (s : Store)
    → (pin a now k tier ttl s).0.local ≡ (local_pin now k tier ttl s).0.local
unfolding pin
pin-local a now k tier ttl s = elim (Bool-cases (use_remote a (local_pin now k tier ttl s).0)) [
  | inl remote ↦ rw remote (pin_by-local a.answer a k tier ttl (local_pin now k tier ttl s))
  | inr here ↦ rw here
]

pinned-local : (a : Access) (t : Time) (j : Key) (s : Store) → (pinned a t j s).0.local ≡ s.local
unfolding pinned
pinned-local a t j s = elim (Bool-cases (use_remote a s)) [
  | inl remote ↦ rw remote (by a.answer)
  | inr here ↦ rw here
]
  where
    by : (o : Answer) → (pinned_by o a j (local_pinned t j s.local) s).0.local ≡ s.local
    by answered = refl
    by failed = refl
    by abandoned = refl

forget-local : (a : Access) (j : Key) (s : Store) → (forget a j s).local ≡ delete j s.local
unfolding forget
forget-local a j s =
    let s' : Store = record s { local = delete j s.local } in
    elim (Bool-cases (use_remote a s')) [
      | inl remote ↦ rw remote (by a.answer s')
      | inr here ↦ rw here
    ]
  where
    by : (o : Answer) (s' : Store) → (forget_by o a j s').local ≡ s'.local
    by answered s' = refl
    by failed s' = refl
    by abandoned s' = refl

insert-Distinct :
    (j : Key) (p : Pin) (pins : Dict Key Pin) → Distinct pins → Distinct (insert j p pins)
unfolding insert lookup
insert-Distinct j p [] d = (refl, tt)
insert-Distinct j p ((k, q) ∷ pins) d = elim (Bool-cases (j == k)) [
  | inl same ↦ rw same (subst (λ x. Fresh x pins) (sym ((key_eq.equal_iff j k).0 same)) d.0, d.1)
  | inr other ↦ rw other (rw (lookup-insert, other) d.0, insert-Distinct j p pins d.1)
]

delete-Distinct : (j : Key) (pins : Dict Key Pin) → Distinct pins → Distinct (delete j pins)
unfolding delete
delete-Distinct j [] d = tt
delete-Distinct j ((k, q) ∷ pins) d = elim (Bool-cases (j == k)) [
  | inl same ↦ rw same (delete-Distinct j pins d.1)
  | inr other ↦ rw other (lookup-delete j k pins ∙ rw other d.0, delete-Distinct j pins d.1)
]

drop_expired-Distinct :
    (now : Time) (pins : Dict Key Pin) → Distinct pins → Distinct (drop_expired now pins)
unfolding drop_expired
drop_expired-Distinct now [] d = tt
drop_expired-Distinct now ((k, q) ∷ pins) d = elim (Bool-cases (ltb now q.until)) [
  | inl lives ↦ rw lives (drop_expired-Fresh now k pins d.0, drop_expired-Distinct now pins d.1)
  | inr gone ↦ rw gone (drop_expired-Distinct now pins d.1)
]

sweep-Distinct : (now : Time) (s : Store) → Distinct s.local → Distinct (sweep now s).local
unfolding sweep
sweep-Distinct now s d =
    elim (Bool-cases (leb sweep_at (length s.local) && reached now s.next_sweep)) [
      | inl due ↦ rw due (drop_expired-Distinct now s.local d)
      | inr early ↦ rw early d
    ]

pub local_pin-Distinct :
    (now : Time) (k : Key) (tier : ℕ) (ttl : Duration) (s : Store)
    → Distinct s.local
    → Distinct (local_pin now k tier ttl s).0.local
unfolding local_pin
local_pin-Distinct now k tier ttl s d =
    insert-Distinct k _ (sweep now s).local (sweep-Distinct now s d)

-- The session is told of no earlier tier by the replica's pins, from `clock` on until `until`.
abbrev pub Held : Key → ℕ → Time → Time → Store → Type 0
Held k tier until clock s =
    Distinct s.local
    × ((at : Time) → clock ≤ at → at < until → NoEarlier tier (local_pinned at k s.local))

raised_tier-keeps :
    (later until : Time) (held : Option ℕ) (tier other : ℕ)
    → later < until
    → NoEarlier tier held
    → NoEarlier tier (raised_tier later until held other)
raised_tier-keeps later until none tier other h (u, e, le) = absurd (ground arith)
raised_tier-keeps later until (some v) tier other h (u, e, le) =
    (max v other, ground arith, ground arith)

module _ (k : Key) (tier : ℕ) (until : Time) where
  same-Held :
      (clock : Time) (s s' : Store)
      → s'.local ≡ s.local
      → Held k tier until clock s
      → Held k tier until clock s'
  same-Held clock s s' e (d, told) = (
    subst Distinct (sym e) d,
    λ at le lt. subst (λ pins. NoEarlier tier (local_pinned at k pins)) (sym e) (told at le lt),
  )

  repinned-Held :
      (a : Access) (clock t : Time) (j : Key) (other : ℕ) (ttl : Duration) (s : Store)
      → clock ≤ t
      → ((j == k) ≡ false) ⊎ (until ≤ t + ttl)
      → Held k tier until clock s
      → Held k tier until t (pin a t j other ttl s).0
  repinned-Held a clock t j other ttl s after lasts (d, told) =
      same-Held t (local_pin t j other ttl s).0 (pin a t j other ttl s).0
        (pin-local a t j other ttl s)
        (
          local_pin-Distinct t j other ttl s d,
          λ at le lt.
              subst (NoEarlier tier) (sym (local_pin_lem t at j k other ttl s d le).0)
                (by_key at le lt (Bool-cases (j == k)) lasts),
        )
    where
      by_key :
          (at : Time)
          → t ≤ at
          → at < until
          → ((j == k) ≡ true) ⊎ ((j == k) ≡ false)
          → ((j == k) ≡ false) ⊎ (until ≤ t + ttl)
          → NoEarlier tier (
              if j == k
              then raised_tier at (t + ttl) (local_pinned t j s.local) other
              else local_pinned at k s.local)
      by_key at le lt (inr differs) _ = rw differs (told at (omega (arith, after, le)) lt)
      by_key at le lt (inl same) (inl differs) = absurd (ground arith)
      by_key at le lt (inl same) (inr long) = rw same (
          raised_tier-keeps at (t + ttl) (local_pinned t j s.local) tier other
            (omega (arith, lt, long))
            (subst (λ x. NoEarlier tier (local_pinned t x s.local))
              (sym ((key_eq.equal_iff j k).0 same)) (told t after (omega (arith, le, lt)))))

  dropped-Held :
      (a : Access) (clock : Time) (j : Key) (s : Store)
      → (j == k) ≡ false
      → Held k tier until clock s
      → Held k tier until clock (forget a j s)
  unfolding local_pinned
  dropped-Held a clock j s differs (d, told) =
      same-Held clock (record s { local = delete j s.local }) (forget a j s) (forget-local a j s)
        (delete-Distinct j s.local d, λ at le lt. rw (lookup-delete, differs) (told at le lt))

  -- Whatever the replica does with its pins but to drop the session's, it is told of no earlier tier.
  pub uses-NoEarlier :
      (later : Time) (us : List Use) (clock : Time) (s : Store)
      → InOrder k later until clock us
      → later < until
      → Held k tier until clock s
      → NoEarlier tier (local_pinned later k (uses us s).local)
  unfolding uses
  uses-NoEarlier later [] clock s order lt h = h.1 later order lt
  uses-NoEarlier later (looked a t j ∷ us) clock s order lt h =
      uses-NoEarlier later us clock (pinned a t j s).0 order lt
        (same-Held clock s (pinned a t j s).0 (pinned-local a t j s) h)
  uses-NoEarlier later (repinned a t j other ttl ∷ us) clock s (after, lasts, order) lt h =
      uses-NoEarlier later us t (pin a t j other ttl s).0 order lt
        (repinned-Held a clock t j other ttl s after lasts h)
  uses-NoEarlier later (dropped a j ∷ us) clock s (differs, order) lt h =
      uses-NoEarlier later us clock (forget a j s) order lt (dropped-Held a clock j s differs h)
