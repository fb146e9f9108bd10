-- ===== src/Lookups/Answers.antt =====
-- What is served without asking: answers of the database for that key, young enough.
use text.Mathlib.TextEquality.{eq_iff}
use ipsupport_airllm.Base.{
  ◌+◌, ◌<◌, ◌≡◌, refl, sym, subst, ap, ◌∙◌, inl, inr, Bool-cases, Option, none, some, List, [], ◌∷◌,
  ◌++◌, ◌≤◌, Some-weaken, String, string_eq, nat_eqb, if◌then◌else◌, arith, Some, ◌==◌,
}
use ipsupport_airllm.Base.Clock.{Time, Duration}
use ipsupport_airllm.Base.Dict.{lookup, insert, delete, lookup-insert, lookup-delete}
use ipsupport_airllm.Lookups.{
  Cache, new, Entry, Ticket, found, miss, error, Look, serves, asks, Options, Event, look,
  store_answer, conclude, purge, event, run, younger, is_quiet, stored, concluded, purged,
}

-- An answer that the database gave: for which key, and when the request that asked had looked
pub record Given (V : Type 0) : Type 0 where
  pub key : String
  pub v : V
  pub at : Time

module _ {V : Type 0} where
  abbrev pub given_by : Event V → List (Given V)
  given_by (stored t (found v)) = record { key = t.key; v = v; at = t.now } ∷ []
  given_by (stored t miss) = []
  given_by (stored t error) = []
  given_by (concluded t answer now) = []
  given_by purged = []

  -- The answers of the run, after those given before it
  abbrev pub given : List (Event V) → List (Given V) → List (Given V)
  given [] before = before
  given (e ∷ es) before = given es (given_by e ++ before)

  abbrev pub Is : String → Entry V → Given V → Type 0
  Is key e g = (g.key ≡ key) × (g.v ≡ e.v) × (g.at ≡ e.at)

  -- Every entry is an answer of the database for its key.
  abbrev pub Sourced : Cache V → List (Given V) → Type 0
  Sourced c gs = (key : String) (e : Entry V) → lookup key c.entries ≡ some e → Some (Is key e) gs

  new-Sourced : Sourced new []
  unfolding lookup
  new-Sourced key e h = absurd (ground arith)

  kept-Sourced :
      (c : Cache V) (gs : List (Given V)) (key : String)
      → Sourced c gs
      → Sourced (record c { entries = delete key c.entries }) gs
  kept-Sourced c gs key s other e h = elim (Bool-cases (key == other)) [
    | inl same ↦ absurd (ground (arith, lookup-delete key other c.entries))
    | inr differs ↦ s other e (ground (arith, lookup-delete key other c.entries))
  ]

  added-Sourced :
      (c : Cache V) (gs : List (Given V)) (key : String) (v : V) (at : Time)
      → Sourced c gs
      → Sourced
          (record c { entries = insert key (record { v = v; at = at }) c.entries })
          (record { key = key; v = v; at = at } ∷ gs)
  added-Sourced c gs key v at s other e h = elim (Bool-cases (key == other)) [
    | inl same ↦ inl (
        ground
          (arith, lookup-insert key other (record { v = v; at = at }) c.entries, eq_iff key other))
    | inr differs ↦
        inr (
          s other e (ground (arith, lookup-insert key other (record { v = v; at = at }) c.entries)))
  ]

  conclude-entries :
      (t : Ticket V) (held : Option (Entry V)) (now : Time) (c : Cache V)
      → (conclude (record t { held = held }) error now c).1.entries ≡ c.entries
  unfolding conclude
  conclude-entries t none now c = refl
  conclude-entries t (some e) now c = ground arith

  event-Sourced :
      (ev : Event V) (c : Cache V) (gs : List (Given V))
      → Sourced c gs
      → Sourced (event ev c) (given_by ev ++ gs)
  unfolding event store_answer conclude purge lookup
  event-Sourced (stored t (found v)) c gs s = elim (Bool-cases (nat_eqb c.gen t.gen)) [
    | inl current ↦ rw current (added-Sourced c gs t.key v t.now s)
    | inr old ↦ rw old (λ key e h. inr (s key e h))
  ]
  event-Sourced (stored t miss) c gs s = kept-Sourced c gs t.key s
  event-Sourced (stored t error) c gs s = s
  event-Sourced (concluded t (found v) now) c gs s = s
  event-Sourced (concluded t miss now) c gs s = s
  event-Sourced (concluded t error now) c gs s =
      λ key e h. s key e (ap (lookup key) (sym (conclude-entries t t.held now c)) ∙ h)
  event-Sourced purged c gs s = λ key e h. absurd (ground arith)

  run-Sourced :
      (es : List (Event V)) (c : Cache V) (gs : List (Given V))
      → Sourced c gs
      → Sourced (run es c) (given es gs)
  unfolding run
  run-Sourced [] c gs s = s
  run-Sourced (ev ∷ es) c gs s =
      run-Sourced es (event ev c) (given_by ev ++ gs) (event-Sourced ev c gs s)

  -- An answer for the key, less than that long before now
  abbrev pub Recent : String → V → Time → Duration → Given V → Type 0
  Recent key v now age g = (g.key ≡ key) × (g.v ≡ v) × (now < g.at + age)

  abbrev pub HeldBacked : Options → String → Time → List (Given V) → Option (Entry V) → Type 0
  HeldBacked opts key now gs none = Unit
  HeldBacked opts key now gs (some e) = Some (Recent key e.v now opts.max_stale) gs

  -- What a look serves, or lets a request fall back on, comes of such an answer.
  abbrev pub Backed : Options → String → Time → List (Given V) → Look V → Type 0
  Backed opts key now gs (serves v) = Some (Recent key v now opts.max_stale) gs
  Backed opts key now gs (asks t) = HeldBacked opts key now gs t.held

  recent :
      (key : String) (now : Time) (age : Duration) (e : Entry V) (gs : List (Given V))
      → now < e.at + age
      → Some (Is key e) gs
      → Some (Recent key e.v now age) gs
  recent key now age e gs young =
      Some-weaken (λ g h. (h.0, h.1, subst (λ at. now < at + age) (sym h.2) young)) gs

  look-Backed :
      (opts : Options) (key : String) (now : Time) (c : Cache V) (gs : List (Given V))
      → opts.ttl ≤ opts.max_stale
      → Sourced c gs
      → Backed opts key now gs (look opts key now c)
  unfolding look
  look-Backed opts key now c gs order s = decided (lookup key c.entries) refl
    where
      seen :
          (e : Entry V)
          → Some (Is key e) gs
          → Backed opts key now gs (
              if younger now opts.ttl e
              then serves e.v
              else if younger now opts.max_stale e
              then (if is_quiet c.quiet_until now
                  then serves e.v
                  else asks (record { key = key; now = now; gen = c.gen; held = some e }))
              else asks (record { key = key; now = now; gen = c.gen; held = none }))
      seen e from = elim (Bool-cases (younger now opts.ttl e)) [
        | inl fresh ↦ rw fresh (recent key now opts.max_stale e gs (ground arith) from)
        | inr aged ↦ elim (Bool-cases (younger now opts.max_stale e)) [
          | inr old ↦ rw (aged, old) tt
          | inl usable ↦ elim (Bool-cases (is_quiet c.quiet_until now)) [
            | inl quiet ↦
                rw (aged, usable, quiet) (recent key now opts.max_stale e gs (ground arith) from)
            | inr loud ↦
                rw (aged, usable, loud) (recent key now opts.max_stale e gs (ground arith) from)
          ]
        ]
      ]

      decided :
          (o : Option (Entry V))
          → lookup key c.entries ≡ o
          → Backed opts key now gs (elim o as (λ _. Look V) [
            | none ↦ asks (record { key = key; now = now; gen = c.gen; held = none })
            | some e ↦
                if younger now opts.ttl e
                then serves e.v
                else if younger now opts.max_stale e
                then (if is_quiet c.quiet_until now
                    then serves e.v
                    else asks (record { key = key; now = now; gen = c.gen; held = some e }))
                else asks (record { key = key; now = now; gen = c.gen; held = none })
          ])
      decided none h = tt
      decided (some e) h = seen e (s key e h)

  -- From an empty cache, through any steps of any requests and any purges: what a look serves without
  -- asking, and what it holds to fall back on, is an answer that the database gave for that key to a
  -- request which had looked less than the longest staleness before.
  pub run-Backed :
      (opts : Options) (key : String) (now : Time) (es : List (Event V))
      → opts.ttl ≤ opts.max_stale
      → Backed opts key now (given es []) (look opts key now (run es new))
  run-Backed opts key now es order =
      look-Backed opts key now (run es new) (given es []) order (run-Sourced es new [] new-Sourced)
