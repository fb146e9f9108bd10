-- ===== src/Breaker/Local.antt =====
-- internal/breaker/breaker.go, `admit` and `Record` on a replica that is without Redis.
use ipsupport_airllm.Base.{
  ◌≡◌, refl, sym, ap, ◌∙◌, inl, inr, arith, Bool, true, false, Option, none, some, List, [], ◌∷◌,
  ◌++◌, append-nil, subst, if◌then◌else◌, not, ◌==◌, Bool-cases, Option-cases,
}
use ipsupport_airllm.Base.Clock.{Time}
use ipsupport_airllm.Base.Dict.{Dict, insert, lookup-insert, lookup-insert_self}
use ipsupport_airllm.Breaker.Types.{Settings, Key, key_eq, Admission, admitted, Transition, Record}
use ipsupport_airllm.Breaker.Machine.{state, is_closed, blocks, skip, admit_step}
use ipsupport_airllm.Breaker.Stores.{
  Codec, Access, Breaker, mem_load, mem_update, use_remote, emit, load, update,
}
use ipsupport_airllm.Breaker.Ops.{admit, admit_loaded, see, race_end, race, emit_some}
use ipsupport_airllm.Breaker.Probes.{kept}

module _ {F Raw : Type 0} (codec : Codec Raw) (k : Key) where
  pub load_local :
      (a : Access Raw) (b : Breaker F Raw)
      → use_remote a b ≡ false
      → load codec a k b ≡ (b, some (mem_load k b.local))
  unfolding load
  load_local a b h = rw h

  pub update_local_lem :
      {O : Type 0} (a : Access Raw) (fn : Record → Option Record × O) (out : O) (b : Breaker F Raw)
      → use_remote a b ≡ false
      → update codec a k fn out b
        ≡ (record b { local = (mem_update k fn b.local).0 }, none, (mem_update k fn b.local).1)
  unfolding update
  update_local_lem a fn out b h = rw h

mem_load-insert : (k : Key) (r : Record) (m : Dict Key Record) → mem_load k (insert k r m) ≡ r
unfolding mem_load
mem_load-insert k r m = rw (lookup-insert_self k r m)

mem_load-insert_ne :
    (k j : Key) (r : Record) (m : Dict Key Record)
    → (k == j) ≡ false
    → mem_load j (insert k r m) ≡ mem_load j m
unfolding mem_load
mem_load-insert_ne k j r m h = rw (lookup-insert k j r m, h)

-- The record of `j` after that of `k` has become `r`.
abbrev pub changed : Key → Record → Key → Dict Key Record → Record
changed k r j m = if k == j then r else mem_load j m

changed_same : (k j : Key) (m : Dict Key Record) → changed k (mem_load k m) j m ≡ mem_load j m
changed_same k j m = elim (Bool-cases (k == j)) [
  | inl here ↦ rw here (ap (λ i. mem_load i m) ((key_eq.equal_iff k j).0 here))
  | inr there ↦ rw there
]

changed-insert :
    (k j : Key) (r : Record) (m : Dict Key Record) → mem_load j (insert k r m) ≡ changed k r j m
changed-insert k j r m = elim (Bool-cases (k == j)) [
  | inl here ↦ rw here (
      subst (λ i. mem_load i (insert k r m) ≡ r) ((key_eq.equal_iff k j).0 here)
        (mem_load-insert k r m))
  | inr there ↦ rw there (mem_load-insert_ne k j r m there)
]

pub mem_update-kept :
    {O : Type 0} (k j : Key) (fn : Record → Option Record × O) (m : Dict Key Record)
    → (mem_load j (mem_update k fn m).0 ≡ changed k (kept (fn (mem_load k m)).0 (mem_load k m)) j m)
      × ((mem_update k fn m).1 ≡ (fn (mem_load k m)).1)
unfolding mem_update
mem_update-kept k j fn m = elim (Option-cases (fn (mem_load k m)).0) [
  | inl same ↦ (rw same (sym (changed_same k j m)), refl)
  | inr (r, e) ↦ (rw e (changed-insert k j r m), refl)
]

abbrev pub reports : Option Transition → List Transition
reports none = []
reports (some t) = t ∷ []

pub emit_some-reports :
    {F Raw : Type 0} (t : Option Transition) (b : Breaker F Raw)
    → emit_some t b ≡ record b { observed = b.observed ++ reports t }
unfolding emit
emit_some-reports none b = rw append-nil
emit_some-reports (some t) b = refl

module _ {F Raw : Type 0} (codec : Codec Raw) (k : Key) (a a' : Access Raw) (set : Settings F)
    (now : Time) where
  race_local :
      (force : Bool) (b : Breaker F Raw)
      → use_remote a' b ≡ false
      → let fn = admit_step k set now force in
        race codec k a' set now force b ≡ (
          record b {
            local = (mem_update k fn b.local).0;
            observed = b.observed ++ reports (fn (mem_load k b.local)).1.1;
          },
          (fn (mem_load k b.local)).1.0,
        )
  unfolding race mem_update
  race_local force b h =
      ap race_end (update_local_lem codec k a' (admit_step k set now force) (admitted, none) b h)
      ∙ ap (λ b'. (b', (admit_step k set now force (mem_load k b.local)).1.0))
          (emit_some-reports (admit_step k set now force (mem_load k b.local)).1.1
            (record b { local = (mem_update k (admit_step k set now force) b.local).0 }))

  admit_closed :
      (force : Bool) (r : Record)
      → is_closed (state r) ≡ true
      → admit_step k set now force r ≡ (none, (admitted, none))
  unfolding admit_step
  admit_closed force r h = rw h

  admit_blocked :
      (force : Bool) (r : Record)
      → is_closed (state r) ≡ false
      → blocks r now force ≡ true
      → admit_step k set now force r ≡ (none, (skip r, none))
  unfolding admit_step
  admit_blocked force r h h' = rw (h, h')

  use_remote-see :
      (c : Access Raw) (b : Breaker F Raw)
      → use_remote c b ≡ false
      → use_remote c (see k set now b) ≡ false
  unfolding use_remote
  use_remote-see c b h = h

  -- The result of one run of the closure on the replica's own record.
  abbrev pub RunsLocally : Bool → Key → Breaker F Raw → Breaker F Raw × Admission → Type 0
  RunsLocally force j b res =
      let step = admit_step k set now force (mem_load k b.local) in
      (res.1 ≡ step.1.0)
      × (mem_load j res.0.local ≡ changed k (kept step.0 (mem_load k b.local)) j b.local)
      × (res.0.observed ≡ b.observed ++ reports step.1.1)

  admit_loaded-RunsLocally :
      (force : Bool) (j : Key) (b : Breaker F Raw)
      → use_remote a' b ≡ false
      → RunsLocally force j b (admit_loaded codec k a' set now force (b, some (mem_load k b.local)))
  unfolding admit_loaded
  admit_loaded-RunsLocally force j b h =
      elim (Bool-cases (is_closed (state (mem_load k b.local)))) [
        | inl idle ↦
            rw (idle, admit_closed force (mem_load k b.local) idle)
              (refl, sym (changed_same k j b.local), sym (append-nil b.observed))
        | inr busy ↦ elim (Bool-cases (blocks (mem_load k b.local) now force)) [
          | inl blocked ↦
              rw (busy, blocked, admit_blocked force (mem_load k b.local) busy blocked)
                (refl, sym (changed_same k j b.local), sym (append-nil b.observed))
          | inr free ↦
              let (same, out) = mem_update-kept k j (admit_step k set now force) b.local in
              rw (busy, free, race_local force b h) (refl, same, refl)
        ]
      ]

  admit_on :
      (force : Bool) (b : Breaker F Raw)
      → set.enabled ≡ true
      → admit codec k a a' set now force b
        ≡ admit_loaded codec k a' set now force (load codec a k (see k set now b))
  unfolding admit
  admit_on force b on =
      ap
        (λ e.
          if not e
          then (b, admitted)
          else admit_loaded codec k a' set now force (load codec a k (see k set now b)))
        on

  -- While a replica is without Redis an attempt is decided by one run of the closure on the record
  -- that the replica holds itself: it gets the closure's admission, the record becomes what the
  -- closure makes of it, every other tier keeps its record, and the transition that the closure
  -- reports, and no other, reaches the observer.
  pub admit_local :
      (force : Bool) (j : Key) (b : Breaker F Raw)
      → set.enabled ≡ true
      → use_remote a b ≡ false
      → use_remote a' b ≡ false
      → RunsLocally force j b (admit codec k a a' set now force b)
  admit_local force j b on h h' =
      rw (admit_on force b on, load_local codec k a (see k set now b) (use_remote-see a b h))
        (admit_loaded-RunsLocally force j (see k set now b) (use_remote-see a' b h'))

  -- A context that ends while the shared record is read lets the attempt through: a breaker that
  -- cannot tell never skips a tier.
  pub admit_ended :
      (force : Bool) (b : Breaker F Raw)
      → use_remote a b ≡ true
      → a.answers ≡ false
      → a.ended ≡ true
      → (admit codec k a a' set now force b).1 ≡ admitted
  unfolding admit admit_loaded load use_remote
  admit_ended force b h silent gone = ground arith
