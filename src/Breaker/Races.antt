-- ===== src/Breaker/Races.antt =====
-- internal/breaker/breaker.go, `redisStore.update`: transactions on the shared state that race those
-- of other replicas.
use ipsupport_airllm.Base.{
  ℕ, zero, suc, ◌+◌, ◌≤◌, ◌<◌, ◌≡◌, ◌⊎◌, inl, refl, arith, true, Option, none, some, ap, ◌∙◌, subst,
}
use ipsupport_airllm.Base.Dict.{Dict, insert, lookup-insert_self}
use ipsupport_airllm.Breaker.Types.{Key, key_eq, Record}
use ipsupport_airllm.Breaker.Stores.{
  Codec, Error, redis_failed, contended, Attempt, get_fails, exec_fails, unheard, commits, loses,
  put_raw, redis_load, redis_read, Watched, done, failed, lost, watch, redis_update,
}

-- Redis after the other replicas' writes that won `j` races, from the i-th transaction on.
abbrev pub lost_write : {Raw : Type 0} → Key → Attempt Raw → Dict Key Raw → Dict Key Raw
lost_write k (loses v) db = put_raw k v db
lost_write k _ db = db

abbrev pub after_races :
    {Raw : Type 0} → Key → (ℕ → Attempt Raw) → ℕ → ℕ → Dict Key Raw → Dict Key Raw
after_races k attempts i zero db = db
after_races k attempts i (suc j) db =
    after_races k attempts (i + 1) j (lost_write k (attempts i) db)

-- The write that a closure's answer asks for.
abbrev pub written : {Raw : Type 0} → Codec Raw → Key → Option Record → Dict Key Raw → Dict Key Raw
written codec k none db = db
written codec k (some r) db = insert k (codec.marshal r) db

-- What a transaction that came back with an error leaves: nothing was written, or the write that was asked
-- for was made and the answer to it was lost.
abbrev pub Lapsed :
    {Raw : Type 0}
    → Codec Raw
    → Key
    → Attempt Raw
    → Option Record
    → Dict Key Raw
    → Dict Key Raw
    → Type 0
Lapsed codec k a asked db db' = (db' ≡ db) ⊎ ((a ≡ unheard) × (db' ≡ written codec k asked db))

-- A write that was asked for is made by a transaction that no other replica's write came before.
abbrev pub Fate : {Raw : Type 0} → Attempt Raw → Option Record → Type 0
Fate a none = Unit
Fate a (some r) = a ≡ commits

module _ {Raw : Type 0} (codec : Codec Raw) (k : Key) {O : Type 0}
    (fn : Record → Option Record × O) where
  -- What one transaction has done.
  abbrev Outcome : Attempt Raw → Dict Key Raw → Watched codec k fn → Type 0
  Outcome a db (done db' out) =
      (out ≡ (fn (redis_read codec k db)).1)
      × (db' ≡ written codec k (fn (redis_read codec k db)).0 db)
      × Fate a (fn (redis_read codec k db)).0
  Outcome a db (failed db' out) = Lapsed codec k a (fn (redis_read codec k db)).0 db db'
  Outcome a db (lost db' out) = db' ≡ lost_write k a db

  watch-Outcome :
      (a : Attempt Raw) (db : Dict Key Raw) (out : O) → Outcome a db (watch codec k fn a db out)
  unfolding watch
  watch-Outcome get_fails db out = inl refl
  watch-Outcome exec_fails db out = ground arith
  watch-Outcome unheard db out = ground arith
  watch-Outcome commits db out = ground arith
  watch-Outcome (loses v) db out = ground arith

  module _ (attempts : ℕ → Attempt Raw) where
    -- An update that succeeds has written what the closure makes of the value that the other
    -- replicas left after winning `j` races, and left that run's results; one that
    -- was beaten too often has written nothing; one that Redis failed has written nothing, or what the closure makes of that value in a transaction that went unheard.
    abbrev pub Settled : ℕ → ℕ → Dict Key Raw → Option Error × Dict Key Raw × O → Type 0
    Settled n i db (none, db', out) =
        (j : ℕ) × (j < n)
        × (out ≡ (fn (redis_read codec k (after_races k attempts i j db))).1)
        × (db'
            ≡ written codec k (fn (redis_read codec k (after_races k attempts i j db))).0
                (after_races k attempts i j db))
        × Fate (attempts (i + j)) (fn (redis_read codec k (after_races k attempts i j db))).0
    Settled n i db (some contended, db', out) =
        (j : ℕ) × (j ≤ n) × (db' ≡ after_races k attempts i j db)
    Settled n i db (some e, db', out) =
        (j : ℕ) × (j ≤ n)
        × Lapsed codec k (attempts (i + j))
            (fn (redis_read codec k (after_races k attempts i j db))).0
            (after_races k attempts i j db) db'

    Settled-next :
        (n i : ℕ) (db : Dict Key Raw) (res : Option Error × Dict Key Raw × O)
        → Settled n (i + 1) (lost_write k (attempts i) db) res
        → Settled (suc n) i db res
    Settled-next n i db (none, db', out) (j, lt, p, q, fate) =
        let shift : i + 1 + j ≡ i + suc j = omega arith in
        (
          suc j,
          omega arith,
          p,
          q,
          subst
              (λ m.
                Fate (attempts m) (fn (redis_read codec k (after_races k attempts i (suc j) db))).0)
              shift fate,
        )
    Settled-next n i db (some contended, db', out) (j, le, q) = (suc j, omega arith, q)
    Settled-next n i db (some e, db', out) (j, le, q) =
        let shift : i + 1 + j ≡ i + suc j = omega arith in
        let here = after_races k attempts i (suc j) db in
        (
          suc j,
          omega arith,
          subst (λ m. Lapsed codec k (attempts m) (fn (redis_read codec k here)).0 here db') shift
              q,
        )

    Settled-step :
        (n i : ℕ) (db : Dict Key Raw) (w : Watched codec k fn)
        → Outcome (attempts i) db w
        → ((db' : Dict Key Raw) (out' : O)
            → Settled n (i + 1) db' (redis_update codec k fn attempts n (i + 1) db' out'))
        → Settled (suc n) i db (elim w [
          | done db' out' ↦ (none, db', out')
          | failed db' out' ↦ (some redis_failed, db', out')
          | lost db' out' ↦ redis_update codec k fn attempts n (i + 1) db' out'
        ])
    Settled-step n i db (done db' out') (p, q, fate) rest =
        let start : i ≡ i + 0 = omega arith in
        (
          0,
          omega arith,
          p,
          q,
          subst (λ m. Fate (attempts m) (fn (redis_read codec k db)).0) start fate,
        )
    Settled-step n i db (failed db' out') q rest =
        let start : i ≡ i + 0 = omega arith in
        (
          0,
          omega arith,
          subst (λ m. Lapsed codec k (attempts m) (fn (redis_read codec k db)).0 db db') start q,
        )
    Settled-step n i db (lost db' out') q rest =
        Settled-next n i db (redis_update codec k fn attempts n (i + 1) db' out') (
          subst (λ d. Settled n (i + 1) d (redis_update codec k fn attempts n (i + 1) db' out')) q
            (rest db' out'))

    -- Updates of the shared state are atomic, whatever the other replicas do meanwhile: an update that
    -- succeeds has run its closure on the value that the others left after winning `j` races, fewer
    -- than the tries, and leaves that run's results; if the closure asked for a write, the transaction
    -- that made it lost to no other. One that was beaten too often has written nothing. One that Redis
    -- failed has written nothing, or it has made the write that its
    -- closure asked for on such a value, in a transaction to which Redis's answer was lost.
    pub redis_update-Settled :
        (n i : ℕ) (db : Dict Key Raw) (out : O)
        → Settled n i db (redis_update codec k fn attempts n i db out)
    unfolding redis_update
    redis_update-Settled zero i db out = (0, omega arith, refl)
    redis_update-Settled (suc n) i db out =
        Settled-step n i db (watch codec k fn (attempts i) db out)
          (watch-Outcome (attempts i) db out) (λ db' out'. redis_update-Settled n (i + 1) db' out')

-- What the closure asked to be written, or else what was there
abbrev pub now_stands : Option Record → Record → Record
now_stands none before = before
now_stands (some r) before = r

-- What the claims assume of the JSON codec: a record that was written reads back.
pub record RoundTrips {Raw : Type 0} (codec : Codec Raw) : Type 0 where
  pub unmarshal-marshal : (r : Record) → codec.unmarshal (codec.marshal r) ≡ (r, true)

module _ {Raw : Type 0} (codec : Codec Raw) (law : RoundTrips codec) (k : Key) where
  redis_load-insert :
      (r : Record) (db : Dict Key Raw) → redis_load codec k (insert k (codec.marshal r) db) ≡ r
  unfolding redis_load
  redis_load-insert r db =
      rw (lookup-insert_self k (codec.marshal r) db, redis_load) (rw (law.unmarshal-marshal r))

  redis_load-written :
      (asked : Option Record) (db : Dict Key Raw)
      → redis_load codec k (written codec k asked db) ≡ now_stands asked (redis_load codec k db)
  redis_load-written none db = refl
  redis_load-written (some r) db = redis_load-insert r db

  -- What an update that succeeds has done is what every replica reads next: the record that its closure
  -- answered with, or the one that stood there when it asked for no write, for the value that the
  -- others left after winning `j` races.
  pub redis_update-reads_back :
      {O : Type 0} (fn : Record → Option Record × O) (attempts : ℕ → Attempt Raw) (n : ℕ)
      (db db' : Dict Key Raw) (out out' : O)
      → redis_update codec k fn attempts n 0 db out ≡ (none, db', out')
      → (j : ℕ) × (j < n)
        × (redis_load codec k db'
            ≡ now_stands
                (fn (redis_read codec k (after_races k attempts 0 j db))).0
                (redis_load codec k (after_races k attempts 0 j db)))
  redis_update-reads_back fn attempts n db db' out out' ok =
      let (j, lt, _, stored, _) =
        subst (Settled codec k fn attempts n 0 db) ok
          (redis_update-Settled codec k fn attempts n 0 db out) in
      let before = after_races k attempts 0 j db in
      (
        j,
        lt,
        ap (redis_load codec k) stored
            ∙ redis_load-written (fn (redis_read codec k before)).0 before,
      )
