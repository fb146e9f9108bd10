-- ===== src/Lookups/Purges.antt =====
-- What a purge stops: answers that were looked up before it.
use ipsupport_airllm.Base.{
  ◌+◌, ◌≤◌, ◌<◌, ◌≡◌, refl, true, false, Option, none, some, List, [], ◌∷◌, String, string_eq,
  nat_eqb, arith,
}
use ipsupport_airllm.Base.Clock.{Time}
use ipsupport_airllm.Base.Dict.{lookup}
use ipsupport_airllm.Lookups.{
  backoff, Cache, Entry, Ticket, found, miss, error, serves, Options, Event, answered, stale, look,
  store_answer, conclude, purge, event, run, stored, concluded, purged,
}

module _ {V : Type 0} where
  event-gen : (e : Event V) (c : Cache V) → c.gen ≤ (event e c).gen
  unfolding event store_answer conclude purge
  event-gen (stored t (found v)) c = ground arith
  event-gen (stored t miss) c = ground arith
  event-gen (stored t error) c = ground arith
  event-gen (concluded t (found v) now) c = ground arith
  event-gen (concluded t miss now) c = ground arith
  event-gen (concluded t error now) c = ground arith
  event-gen purged c = ground arith

  run-gen : (es : List (Event V)) (c : Cache V) → c.gen ≤ (run es c).gen
  unfolding run
  run-gen [] c = omega arith
  run-gen (e ∷ es) c = omega (arith, event-gen e c, run-gen es (event e c))

  purge-later : (es : List (Event V)) (c : Cache V) → c.gen < (run es (purge c)).gen
  unfolding purge
  purge-later es c = omega (arith, run-gen es (purge c))

  -- A request that looked before a purge, or at any time up to it, changes nothing of the cache when its
  -- load ends after it with an answer, and is not given the old entry when the load fails: it returns
  -- the load's error, and no later request is kept from asking.
  pub purge-Forgets :
      (t : Ticket V) (v : V) (now : Time) (es : List (Event V)) (c : Cache V)
      → t.gen ≤ c.gen
      → let c' = run es (purge c) in
        (store_answer t (found v) c' ≡ c') × (conclude t error now c' ≡ (answered error, c'))
  unfolding store_answer conclude
  purge-Forgets t v now es c before =
      let later = purge-later es c in
      let other : nat_eqb (run es (purge c)).gen t.gen ≡ false = ground arith in
      (rw other refl, failed t.held other)
    where
      failed :
          (held : Option (Entry V))
          → nat_eqb (run es (purge c)).gen t.gen ≡ false
          → conclude (record t { held = held }) error now (run es (purge c))
            ≡ (answered error, run es (purge c))
      failed none other = refl
      failed (some e) other = rw other refl

  -- After a failed refresh that a stale answer stood in for, no request with an entry to fall back on
  -- asks the database until the backoff is over: it is served what the cache has.
  pub conclude-Quiet :
      (opts : Options) (t : Ticket V) (held : Entry V) (now later : Time) (c : Cache V)
      (key : String) (e : Entry V)
      → t.held ≡ some held
      → t.gen ≡ c.gen
      → later < now + backoff
      → lookup key c.entries ≡ some e
      → later < e.at + opts.max_stale
      → (conclude t error now c).0 ≡ stale held.v
        × (look opts key later (conclude t error now c).1 ≡ serves e.v)
  unfolding conclude look lookup
  conclude-Quiet opts t held now later c key e held_e gen_e quiet present usable =
      let current : nat_eqb c.gen t.gen ≡ true = ground arith in
      rw (held_e, current, present) (refl, ground arith)
