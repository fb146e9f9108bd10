-- ===== src/Unavail/Laws.antt =====
-- What `Check` answers after `Mark` and after `Clear`.
use ipsupport_airllm.Base.{
  ◌+◌, ◌-◌, Bool, ◌&&◌, ◌||◌, not, ltb, if◌then◌else◌, ◌≡◌, true, false, Option, none, some, arith,
}
use ipsupport_airllm.Base.Clock.{Time, Duration, unix_milli, from_milli}
use ipsupport_airllm.Base.Dict.{lookup-delete_self, lookup-insert_self}
use ipsupport_airllm.Unavail.{
  Key, key_eq, Mark, Codec, Access, record_ttl, Store, next_backoff, mark_of, left, load, store,
  check, mark, clear,
}

pub record RoundTrips {Raw : Type 0} (codec : Codec Raw) : Type 0 where
  pub unmarshal-marshal : (r : Mark) → codec.unmarshal (codec.marshal r) ≡ some r

module _ {Raw : Type 0} (codec : Codec Raw) (law : RoundTrips codec) (a a' : Access) (k : Key) where
  -- The mark is read in this process, or from Redis before it expires there.
  abbrev pub still_kept : Store Raw → Bool
  still_kept s = not (s.has_redis && a'.reads) || ltb a'.redis_now (a.redis_now + record_ttl)

  -- A mark that a replica has written is what it reads, from Redis or from its own memory.
  load-store :
      (r : Mark) (s : Store Raw)
      → (a.writes ≡ false → s.has_redis ≡ true → a'.reads ≡ false)
      → load codec a' k (store codec a k r s) ≡ (if still_kept s then some r else none)
  unfolding load store
  load-store r s h = ground (
    arith,
    lookup-insert_self k r s.local,
    lookup-insert_self k (record { value = codec.marshal r; expires = a.redis_now + record_ttl })
        s.redis,
    law.unmarshal-marshal r,
  )

  -- Right after a mark the pair is skipped until the marked instant, whole milliseconds of `now + dur`,
  -- and the time left is told; from that instant on it is tried again. A mark that is read from Redis is
  -- gone there an hour after it was written, by Redis's clock: from then on the pair is tried again,
  -- however long the vendor said to wait. The replica need only read where it wrote: a write that Redis
  -- did not take is seen as long as Redis does not answer.
  pub check-mark :
      (now later : Time) (retry_after : Option Duration) (initial top : Duration) (s : Store Raw)
      → (a.writes ≡ false → s.has_redis ≡ true → a'.reads ≡ false)
      → let (s', dur) = mark codec a k now retry_after initial top s in
        let until = from_milli (unix_milli (now + dur)) in
        check codec a' k later s'
        ≡ (if ltb later until && still_kept s then some (until - later) else none)
  unfolding mark check mark_of left
  check-mark now later retry_after initial top s h =
      rw (load-store (mark_of now (next_backoff retry_after (load codec a k s) initial top)) s h)
        (ground arith)

  -- After a clear that reached Redis nothing is skipped and the backoff starts over.
  pub clear-forgets :
      (now : Time) (initial top : Duration) (s : Store Raw)
      → (s.has_redis ≡ true → a.writes ≡ true)
      → (check codec a' k now (clear a k s) ≡ none)
        × ((mark codec a' k now none initial top (clear a k s)).1 ≡ initial)
  unfolding mark check left load clear next_backoff
  clear-forgets now initial top s h =
      ground (arith, lookup-delete_self k s.local, lookup-delete_self k s.redis)
