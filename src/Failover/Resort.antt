-- ===== src/Failover/Resort.antt =====
-- internal/httpapi/failover.go, `soonestOpen`: the tier that the last resort asks.
use ipsupport_airllm.Base.{
  ℕ, ◌≤◌, ◌<◌, ◌≡◌, refl, ◌⊎◌, inl, inr, ap, sym, subst, arith, Option, none, some, [], ◌∷◌, ◌++◌,
  All,
}
use ipsupport_airllm.Base.Clock.{Time}
use ipsupport_airllm.Base.Dict.{Dict}
use ipsupport_airllm.Failover.Walk.{soonest_open, sooner}

-- An entry that is later than the given one, or as late and of a tier no lower.
abbrev pub NotBefore : ℕ × Time → ℕ × Time → Type 0
NotBefore (t, at) (u, until) = (at < until) ⊎ ((at ≡ until) × (t ≤ u))

-- The entry of the tier that opens first, the lowest of those.
abbrev pub Soonest : Dict ℕ Time → Option (ℕ × Time) → Type 0
Soonest m none = m ≡ []
Soonest m (some e) =
    (front : Dict ℕ Time) × (back : Dict ℕ Time) × (m ≡ front ++ (e ∷ back)) × All (NotBefore e) m

NotBefore-trans : (a b c : ℕ × Time) → NotBefore a b → NotBefore b c → NotBefore a c
NotBefore-trans a b c h k = ground arith

All-NotBefore :
    (a b : ℕ × Time) (m : Dict ℕ Time) → NotBefore a b → All (NotBefore b) m → All (NotBefore a) m
All-NotBefore a b [] h all = tt
All-NotBefore a b (e ∷ m) h all = (NotBefore-trans a b e h all.0, All-NotBefore a b m h all.1)

sooner-cases :
    (a b : ℕ × Time)
    → ((sooner a (some b) ≡ a) × NotBefore a b) ⊎ ((sooner a (some b) ≡ b) × NotBefore b a)
sooner-cases a b = ground arith

NotBefore-self : (a : ℕ × Time) → NotBefore a a
NotBefore-self a = inr (refl, omega arith)

sooner-Soonest :
    (e : ℕ × Time) (m : Dict ℕ Time) (o : Option (ℕ × Time))
    → Soonest m o
    → Soonest (e ∷ m) (some (sooner e o))
sooner-Soonest e m none h = rw h ([], [], refl, (NotBefore-self e, tt))
sooner-Soonest e m (some b) (front, back, split, all) = elim (sooner-cases e b) [
  | inl (mine, first) ↦
      subst (λ x. Soonest (e ∷ m) (some x)) (sym mine)
        ([], m, refl, (NotBefore-self e, All-NotBefore e b m first all))
  | inr (theirs, first) ↦
      subst (λ x. Soonest (e ∷ m) (some x)) (sym theirs)
        (e ∷ front, back, ap (◌∷◌ e) split, (first, all))
]

-- The tier that the last resort asks is one of the tiers that the request found open, none of them
-- ends its cooldown before it, and of those that end it at the same moment it is the lowest; there is
-- none exactly when no tier was found open.
pub soonest_open-Soonest : (m : Dict ℕ Time) → Soonest m (soonest_open m)
unfolding soonest_open
soonest_open-Soonest [] = refl
soonest_open-Soonest (e ∷ m) = sooner-Soonest e m (soonest_open m) (soonest_open-Soonest m)
