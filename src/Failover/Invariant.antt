-- ===== src/Failover/Invariant.antt =====
-- Invariants of `executePlan`: what every turn of the inner loop keeps, the whole request keeps.
use ipsupport_airllm.Base.{
  ℕ, zero, suc, Bool, true, false, ◌||◌, Option, none, some, List, [], ◌∷◌, if◌then◌else◌, ltb,
  Bool-cases, Option-cases, inl, inr,
}
use ipsupport_airllm.Base.Float.{Float}
use ipsupport_airllm.Routing.Types.{Target, Plan}
use ipsupport_airllm.Failover.Policy.{context_ended, RequestError}
use ipsupport_airllm.Failover.Gateway.{Gateway}
use ipsupport_airllm.Failover.Runs.{Run, Result, Flow, next, stop, end_with}
use ipsupport_airllm.Failover.Walk.{
  visit, walk, one_round, rounds, last_resort, give_up, start, execute_plan, busy_retries,
  soonest_open, or_give_up, and_then, fail_with, no_target,
}

-- A walk that goes on is in a good state; one that ends has a good result.
abbrev pub FlowHolds :
    {F W : Type 0} → (Run F W → Type 0) → (Result F W → Type 0) → Flow F W → Type 0
FlowHolds I S (next r) = I r
FlowHolds I S (stop res) = S res

-- What a property of runs and one of results need of a single turn.
pub record IsKept {F W : Type 0} (g : Gateway F W) (p : Plan F) (floor forced : Option ℕ)
    (I : Run F W → Type 0) (S : Result F W → Type 0) : Type 0 where
  pub visit-keeps : (t : Target F) (r : Run F W) → I r → FlowHolds I S (visit g p floor forced t r)
  pub world-keeps :
      (r : Run F W) (w : W) (busy : Bool) → I r → I (record r { world = w; any_busy = busy })
  pub failure-holds : (r : Run F W) (err : RequestError) → I r → S (fail_with r err)

module _ {F W : Type 0} ⦃fl : Float F⦄ (g : Gateway F W) (p : Plan F) (floor forced : Option ℕ)
    (I : Run F W → Type 0) (S : Result F W → Type 0) (kept : IsKept g p floor forced I S) where
  pub walk-keeps :
      (ts : List (Target F)) (r : Run F W) → I r → FlowHolds I S (walk g p floor forced ts r)
  unfolding walk
  walk-keeps [] r h = h
  walk-keeps (t ∷ ts) r h =
      go_on (visit g p floor forced t r) (kept.visit-keeps t r h) (λ r' h'. walk-keeps ts r' h')
    where
      go_on :
          (f : Flow F W)
          → FlowHolds I S f
          → ((r' : Run F W) → I r' → FlowHolds I S (walk g p floor forced ts r'))
          → FlowHolds I S (elim f [ next r' ↦ walk g p floor forced ts r' | stop res ↦ stop res ])
      go_on (next r') q k = k r' q
      go_on (stop res) q k = q

  pub rounds-keeps : (n : ℕ) (r : Run F W) → I r → FlowHolds I S (rounds g p floor forced n r)
  unfolding rounds
  rounds-keeps zero r h = h
  rounds-keeps (suc n) r h =
      go_on (one_round g p floor forced r)
        (unfold one_round in
          walk-keeps _ _ (kept.world-keeps r (g.next_rr p.alias r.world).1 false h))
        (λ r' h'. rounds-keeps n r' h')
    where
      go_on :
          (f : Flow F W)
          → FlowHolds I S f
          → ((r' : Run F W) → I r' → FlowHolds I S (rounds g p floor forced n r'))
          → FlowHolds I S (elim f [
            | stop res ↦ stop res
            | next r' ↦ elim r'.any_busy [
              | false ↦ next r'
              | true ↦
                  let (gone, w) = g.wait r'.world in
                  let r'' = record r' { world = w } in
                  let more = rounds g p floor forced n r'' in
                  if gone then end_with r'' false (some context_ended) else more
            ]
          ])
      go_on (stop res) q k = q
      go_on (next r') q k = elim (Bool-cases r'.any_busy) [
        | inr idle ↦ rw idle q
        | inl busy ↦
            let waited : I (record r' { world = (g.wait r'.world).1 }) =
              kept.world-keeps r' (g.wait r'.world).1 r'.any_busy q in
            elim (Bool-cases (g.wait r'.world).0) [
              | inl gone ↦ rw (busy, gone) (kept.failure-holds _ context_ended waited)
              | inr more ↦ rw (busy, more) (k _ waited)
            ]
      ]

module _ {F W : Type 0} ⦃fl : Float F⦄ (g : Gateway F W) (p : Plan F) (floor : Option ℕ)
    (I : Run F W → Type 0) (S : Result F W → Type 0)
    (kept : (forced : Option ℕ) → IsKept g p floor forced I S) where
  last_resort-keeps : (r : Run F W) → I r → FlowHolds I S (last_resort g p floor r)
  unfolding last_resort
  last_resort-keeps r h = elim (Bool-cases (r.saw_busy || ltb 0 r.attempts)) [
    | inl tried ↦ rw tried h
    | inr untried ↦ elim (Option-cases (soonest_open r.open_until)) [
      | inl shut ↦ rw (untried, shut) h
      | inr ((tier, at), found) ↦
          rw (untried, found)
            (rounds-keeps g p floor (some tier) I S (kept (some tier)) (suc busy_retries) r h)
    ]
  ]

  give_up-holds : (r : Run F W) → I r → S (give_up r)
  unfolding give_up
  give_up-holds r h = ends r.last_err
    where
      ends :
          (o : Option RequestError)
          → S (elim o [ some err ↦ fail_with r err | none ↦ fail_with r (no_target r) ])
      ends none = (kept none).failure-holds r (no_target r) h
      ends (some err) = (kept none).failure-holds r err h

  pub execute_plan-holds : (w : W) → I (start w) → S (execute_plan g p floor w)
  unfolding execute_plan
  execute_plan-holds w h =
      finish _
        (resort _ (rounds-keeps g p floor none I S (kept none) (suc busy_retries) (start w) h))
    where
      resort :
          (f : Flow F W)
          → FlowHolds I S f
          → FlowHolds I S (and_then g p floor f (last_resort g p floor))
      resort (stop res) q = q
      resort (next r) q = last_resort-keeps r q

      finish : (f : Flow F W) → FlowHolds I S f → S (or_give_up g p floor f)
      finish (stop res) q = q
      finish (next r) q = give_up-holds r q
