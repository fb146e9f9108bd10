-- ===== src/Failover/Session.antt =====
-- internal/httpapi/session_affinity.go, and what `executePlan` does with it: a session that a backup
-- tier served starts there. Log lines are left out.
use ipsupport_airllm.Base.{
  ℕ, ◌+◌, sym, subst, ◌∙◌, All, String, ◌≤◌, ◌<◌, ◌≡◌, refl, Bool, true, false, not, ◌&&◌, ◌||◌,
  Option, none, some, List, [], ◌∷◌, ltb, leb, if◌then◌else◌, ◌==◌, string_eq, arith, Bool-cases,
  inl, inr,
}
use ipsupport_airllm.Base.Float.{Float}
use ipsupport_airllm.Base.Clock.{Time}
use ipsupport_airllm.Routing.Types.{Target, Plan}
use ipsupport_airllm.Affinity
use ipsupport_airllm.Failover.Gateway.{Gateway}
use ipsupport_airllm.Affinity.Pins.{Distinct}
use ipsupport_airllm.Affinity.Uses.{NoEarlier, Use, uses, InOrder}
use ipsupport_airllm.Affinity.Sessions.{pin-pinned}
use ipsupport_airllm.Failover.Floor.{Allowed, execute_plan-floor}
use ipsupport_airllm.Failover.Runs.{
  Event, admission, outcome, abandoned, called, acquired, released, Result,
}
use ipsupport_airllm.Failover.Walk.{below, execute_plan}

-- Whether a tier comes after the first one of the plan.
abbrev pub is_backup : ℕ → Option ℕ → Bool
is_backup tier none = false
is_backup tier (some first) = ltb first tier

module _ {F : Type 0} where
  abbrev pub reaches_in : ℕ → List (Target F) → Bool
  reaches_in floor [] = false
  reaches_in floor (t ∷ ts) = leb floor t.tier || reaches_in floor ts

  -- Whether the plan has a target at the tier or after it.
  abbrev pub reaches : ℕ → List (List (Target F)) → Bool
  reaches floor [] = false
  reaches floor (ts ∷ tiers) = reaches_in floor ts || reaches floor tiers

  abbrev pub session_key : Plan F → String → Affinity.Key
  session_key p session = record { alias = p.alias; session = session }

  abbrev pub has_affinity : Plan F → String → Bool
  has_affinity p session = p.session_affinity && not (session == "")

  -- `sessionFloor`, once the pin is known: a tier that the plan no longer reaches is dropped.
  unfoldable pub floor_of :
      Affinity.Access → Plan F → String → Affinity.Store × Option ℕ → Affinity.Store × Option ℕ
  floor_of a p session (s, none) = (s, none)
  floor_of a p session (s, some floor) =
      if reaches floor p.tiers
      then (s, some floor)
      else (Affinity.forget a (session_key p session) s, none)

  -- `sessionFloor`: `a` is the access of the read, `a'` that of the removal.
  unfoldable pub session_floor :
      Affinity.Access
      → Affinity.Access
      → Time
      → Plan F
      → String
      → Affinity.Store
      → Affinity.Store × Option ℕ
  unfolding floor_of
  session_floor a a' now p session s =
      if not (has_affinity p session)
      then (s, none)
      else floor_of a' p session (Affinity.pinned a now (session_key p session) s)

  -- The tier of the plan's first target.
  abbrev pub first_tier : List (List (Target F)) → Option ℕ
  first_tier [] = none
  first_tier ([] ∷ tiers) = none
  first_tier ((t ∷ ts) ∷ tiers) = some t.tier

  -- `pinSession`
  unfoldable pub pin_session :
      Affinity.Access → Time → Plan F → String → ℕ → Affinity.Store → Affinity.Store
  pin_session a now p session tier s =
      if has_affinity p session && is_backup tier (first_tier p.tiers)
      then (Affinity.pin a now (session_key p session) tier p.session_affinity_ttl s).0
      else s

  abbrev pub tier_of : Option (Target F) → ℕ
  tier_of none = 0
  tier_of (some t) = t.tier

  -- Whether `executePlan` pins the session when it returns.
  abbrev pub pins_after : {W : Type 0} → Result F W → Bool
  pins_after res = elim res.err [ none ↦ true | some e ↦ res.started ]

module _ {F W : Type 0} ⦃fl : Float F⦄ (g : Gateway F W) (p : Plan F) where
  -- A request of a session: its floor, the plan, and the pin that is left by a request that was served
  -- or had begun to be. The accesses are those of the read, of the removal and of the pin.
  unfoldable pub session_request :
      Affinity.Access
      → Affinity.Access
      → Affinity.Access
      → Time
      → Time
      → String
      → Affinity.Store
      → W
      → Affinity.Store × Result F W
  session_request a a' a'' now later session s w =
      let (s', floor) = session_floor a a' now p session s in
      let res = execute_plan g p floor w in
      (
        if pins_after res then pin_session a'' later p session (tier_of res.run.target) s' else s',
        res,
      )

module _ {F : Type 0} (a a' : Affinity.Access) (now : Time) (p : Plan F) (session : String) where
  -- A floor is a tier that the session is pinned to and that the plan reaches.
  abbrev IsFloor : Option ℕ → Option ℕ → Type 0
  IsFloor told none = Unit
  IsFloor told (some floor) = (told ≡ some floor) × (reaches floor p.tiers ≡ true)

  floor_of-IsFloor :
      (told : Affinity.Store × Option ℕ) → IsFloor told.1 (floor_of a' p session told).1
  unfolding floor_of
  floor_of-IsFloor (s, none) = tt
  floor_of-IsFloor (s, some floor) = elim (Bool-cases (reaches floor p.tiers)) [
    | inl there ↦ rw there (refl, there)
    | inr gone ↦ rw gone tt
  ]

  session_floor-IsFloor :
      (s : Affinity.Store)
      → IsFloor
          (Affinity.pinned a now (session_key p session) s).1
          (session_floor a a' now p session s).1
  unfolding session_floor
  session_floor-IsFloor s = elim (Bool-cases (has_affinity p session)) [
    | inl on ↦ rw on (floor_of-IsFloor (Affinity.pinned a now (session_key p session) s))
    | inr off ↦ rw off tt
  ]

  session_floor-pinned :
      (s : Affinity.Store) (floor : ℕ)
      → (session_floor a a' now p session s).1 ≡ some floor
      → ((Affinity.pinned a now (session_key p session) s).1 ≡ some floor)
        × (reaches floor p.tiers ≡ true)
  session_floor-pinned s floor h =
      subst (IsFloor (Affinity.pinned a now (session_key p session) s).1) h
        (session_floor-IsFloor s)

  -- The tier that a session starts at is one that its plan reaches: a pin never leaves a request
  -- without a target.
  pub session_floor-reaches :
      (s : Affinity.Store) (floor : ℕ)
      → (session_floor a a' now p session s).1 ≡ some floor
      → reaches floor p.tiers ≡ true
  session_floor-reaches s floor h = (session_floor-pinned s floor h).1

module _ {F : Type 0} (p : Plan F) (session : String) where
  pin_session-NoEarlier :
      (a₀ a : Affinity.Access) (now later : Time) (tier : ℕ) (us : List Use) (s : Affinity.Store)
      → has_affinity p session ≡ true
      → is_backup tier (first_tier p.tiers) ≡ true
      → Distinct s.local
      → InOrder (session_key p session) later (now + p.session_affinity_ttl) now us
      → later < now + p.session_affinity_ttl
      → NoEarlier tier
          (Affinity.pinned a later
            (session_key p session)
            (uses us (pin_session a₀ now p session tier s))).1
  unfolding pin_session
  pin_session-NoEarlier a₀ a now later tier us s on backup d order lt =
      rw (on, backup)
        (pin-pinned a₀ a now later (session_key p session) tier p.session_affinity_ttl us s d order
          lt)

below_trans : (t u tier : ℕ) → t ≤ u → below (some u) tier ≡ false → below (some t) tier ≡ false
below_trans t u tier le h = ground arith

Allowed-lower :
    {F : Type 0} (t u : ℕ) → t ≤ u → (e : Event F) → Allowed (some u) e → Allowed (some t) e
Allowed-lower t u le (admission k force probe) h = below_trans t u k.tier le h
Allowed-lower t u le (outcome k failed probe) h = below_trans t u k.tier le h
Allowed-lower t u le (abandoned k) h = below_trans t u k.tier le h
Allowed-lower t u le (called c err) h = below_trans t u c.tier le h
Allowed-lower t u le (acquired s) h = tt
Allowed-lower t u le (released s) h = tt

All-Allowed-lower :
    {F : Type 0} (t u : ℕ)
    → t ≤ u
    → (es : List (Event F)) → All (Allowed (some u)) es
    → All (Allowed (some t)) es
All-Allowed-lower t u le [] h = tt
All-Allowed-lower t u le (e ∷ es) h = (Allowed-lower t u le e h.0, All-Allowed-lower t u le es h.1)

module _ {F W : Type 0} ⦃fl : Float F⦄ (g : Gateway F W) (p : Plan F) (session : String) where
  session_request-result :
      (a a' a'' : Affinity.Access) (now later : Time) (s : Affinity.Store) (w : W)
      → (session_request g p a a' a'' now later session s w).1
        ≡ execute_plan g p (session_floor a a' now p session s).1 w
  unfolding session_request
  session_request-result a a' a'' now later s w = refl

  -- After a backup tier has served a session, a request of it on that replica that starts at a floor asks,
  -- records and calls nothing below that tier while the pin's lifetime lasts, whatever Redis answers,
  -- whatever the session was pinned to before, and whatever the replica does with its pins meanwhile:
  -- looks pins up, pins any session in the order of time, this one for no shorter than this pin's
  -- lifetime, and drops other sessions. Only this session may not be dropped in between.
  pub session_request-stays :
      (a₀ a a' a'' : Affinity.Access) (now later done : Time) (tier floor : ℕ) (us : List Use)
      (s : Affinity.Store) (w : W)
      → has_affinity p session ≡ true
      → is_backup tier (first_tier p.tiers) ≡ true
      → Distinct s.local
      → InOrder (session_key p session) later (now + p.session_affinity_ttl) now us
      → later < now + p.session_affinity_ttl
      → (session_floor a a' later p session (uses us (pin_session a₀ now p session tier s))).1
        ≡ some floor
      → All
          (Allowed (some tier))
          (session_request g p a a' a'' later done session
            (uses us (pin_session a₀ now p session tier s))
            w).1.run.log
  session_request-stays a₀ a a' a'' now later done tier floor us s w on backup d order lt starts =
      let s' = uses us (pin_session a₀ now p session tier s) in
      let (u, told, above) =
        pin_session-NoEarlier p session a₀ a now later tier us s on backup d order lt in
      let here : some u ≡ some floor =
        sym told ∙ (session_floor-pinned a a' later p session s' floor starts).0 in
      rw (session_request-result a a' a'' later done s' w, starts)
        (All-Allowed-lower tier floor (ground arith) _ (execute_plan-floor g p (some floor) w))
