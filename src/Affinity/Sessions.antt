-- ===== src/Affinity/Sessions.antt =====
-- What a request of a session is told after an earlier one was pinned, or after the pin was dropped.
use Prim.Native.Nat.{max}
use ipsupport_airllm.Base.{
  ℕ, ◌+◌, ◌<◌, ◌≡◌, refl, sym, subst, ◌∙◌, ap, true, Option, none, some, List, ltb, if◌then◌else◌,
  arith, Bool-cases, inl, inr,
}
use ipsupport_airllm.Base.Clock.{Time, Duration}
use ipsupport_airllm.Base.Dict.{lookup-delete_self}
use ipsupport_airllm.Affinity.{
  Key, key_eq, Store, Access, Answer, answered, failed, abandoned, local_pinned, pinned, pinned_by,
  later_tier, pin, forget, use_remote,
}
use ipsupport_airllm.Affinity.Pins.{raised_tier, Distinct, local_pin_lem}
use ipsupport_airllm.Affinity.Uses.{
  NoEarlier, Use, uses, InOrder, pin-local, local_pin-Distinct, Held, uses-NoEarlier,
}

later_tier-NoEarlier :
    (tier : ℕ) (here there : Option ℕ)
    → NoEarlier tier here
    → NoEarlier tier (later_tier here there)
later_tier-NoEarlier tier here none h = h
later_tier-NoEarlier tier none (some t) (u, e, le) = absurd (ground arith)
later_tier-NoEarlier tier (some v) (some t) (u, e, le) = elim (Bool-cases (ltb v t)) [
  | inl ahead ↦ rw ahead (t, refl, ground arith)
  | inr behind ↦ rw behind (v, refl, ground arith)
]

pinned-NoEarlier :
    (a : Access) (now : Time) (k : Key) (tier : ℕ) (s : Store)
    → NoEarlier tier (local_pinned now k s.local)
    → NoEarlier tier (pinned a now k s).1
unfolding pinned
pinned-NoEarlier a now k tier s h = elim (Bool-cases (use_remote a s)) [
  | inl remote ↦ rw remote (by a.answer)
  | inr here ↦ rw here h
]
  where
    by : (o : Answer) → NoEarlier tier (pinned_by o a k (local_pinned now k s.local) s).1
    by answered = later_tier-NoEarlier tier (local_pinned now k s.local) _ h
    by failed = h
    by abandoned = h

raised_tier-NoEarlier :
    (later until : Time) (held : Option ℕ) (tier : ℕ)
    → later < until
    → NoEarlier tier (raised_tier later until held tier)
raised_tier-NoEarlier later until none tier h = (tier, ground arith, omega arith)
raised_tier-NoEarlier later until (some v) tier h = (max v tier, ground arith, omega arith)

pin-Held :
    (a : Access) (now : Time) (k : Key) (tier : ℕ) (ttl : Duration) (s : Store)
    → Distinct s.local
    → Held k tier (now + ttl) now (pin a now k tier ttl s).0
pin-Held a now k tier ttl s d = (
  subst Distinct (sym (pin-local a now k tier ttl s)) (local_pin-Distinct now k tier ttl s d),
  λ later le lt.
      let told : local_pinned later k (pin a now k tier ttl s).0.local
          ≡ raised_tier later (now + ttl) (local_pinned now k s.local) tier =
        ap (local_pinned later k) (pin-local a now k tier ttl s)
        ∙ (local_pin_lem now later k k tier ttl s d le).0
        ∙ ap
            (λ b.
              if b
              then raised_tier later (now + ttl) (local_pinned now k s.local) tier
              else local_pinned later k s.local)
            ((key_eq.equal_iff k k).1 refl) in
      subst (NoEarlier tier) (sym told)
        (raised_tier-NoEarlier later (now + ttl) (local_pinned now k s.local) tier lt),
)

-- While the lifetime of a pin lasts, the replica that made it never tells the session an earlier tier,
-- whatever Redis answers, then or later, and whatever it does with its pins meanwhile: it looks them up,
-- pins any session in the order of time, this one for no shorter than the first pin's lifetime, to an
-- earlier tier too, and drops other sessions. Only this session may not be dropped in between.
pub pin-pinned :
    (a a' : Access) (now later : Time) (k : Key) (tier : ℕ) (ttl : Duration) (us : List Use)
    (s : Store)
    → Distinct s.local
    → InOrder k later (now + ttl) now us
    → later < now + ttl
    → NoEarlier tier (pinned a' later k (uses us (pin a now k tier ttl s).0)).1
pin-pinned a a' now later k tier ttl us s d order lt =
    let s' = (pin a now k tier ttl s).0 in
    pinned-NoEarlier a' later k tier (uses us s')
      (uses-NoEarlier k tier (now + ttl) later us now s' order lt (pin-Held a now k tier ttl s d))

-- A pin that was dropped while Redis answered is gone: the session is told of no tier, by its
-- replica's own pins or by Redis, until it is pinned again.
pub forget-pinned :
    (a a' : Access) (now : Time) (k : Key) (s : Store)
    → use_remote a s ≡ true
    → a.answer ≡ answered
    → (pinned a' now k (forget a k s)).1 ≡ none
unfolding pinned forget use_remote local_pinned
forget-pinned a a' now k s remote ok =
    ground (arith, lookup-delete_self k s.local, lookup-delete_self k s.redis)
