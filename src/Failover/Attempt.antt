-- ===== src/Failover/Attempt.antt =====
-- internal/httpapi/failover.go, `runAttempt`: the race of a call with its time budget. The timer, the
-- call's `commit` and the call's return are the steps; each moves the state by one compare-and-swap.
use ipsupport_airllm.Base.{
  Bool, true, false, ◌&&◌, ◌||◌, not, Option, none, some, ◌≡◌, refl, sym, subst, ◌∙◌, arith,
  if◌then◌else◌,
}

-- The four values of `state`
pub data Phase : Type 0 where
  pending has_committed expired returned : Phase

unfoldable pub is_pending : Phase → Bool
is_pending pending = true
is_pending has_committed = false
is_pending expired = false
is_pending returned = false

unfoldable pub is_committed : Phase → Bool
is_committed pending = false
is_committed has_committed = true
is_committed expired = false
is_committed returned = false

unfoldable pub is_expired : Phase → Bool
is_expired pending = false
is_expired has_committed = false
is_expired expired = true
is_expired returned = false

-- `state.CompareAndSwap(attemptPending, to)`
unfoldable pub swap_pending : Phase → Phase → Bool × Phase
unfolding is_pending
swap_pending to p = if is_pending p then (true, to) else (false, p)

-- What an attempt ends with: no error, the call's own error, or that of the budget
pub data Ending : Type 0 where
  fine own_error tier_timeout : Ending

unfoldable pub is_failure : Ending → Bool
is_failure fine = false
is_failure own_error = true
is_failure tier_timeout = true

-- `cancelled`: the call's context is; `emitted`: a commit has told the call to go on with its output;
-- `result`: what `runAttempt` has returned.
pub record Attempt : Type 0 where
  pub phase : Phase
  pub cancelled : Bool
  pub emitted : Bool
  pub result : Option (Bool × Ending)

abbrev pub start : Attempt
start = record { phase = pending; cancelled = false; emitted = false; result = none }

-- The function that the timer runs
unfoldable pub expire : Attempt → Attempt
unfolding swap_pending
expire a =
    let (swapped, p) = swap_pending expired a.phase in
    if swapped then record a { phase = p; cancelled = true } else a

-- `commit`, with its answer
unfoldable pub commit : Attempt → Bool × Attempt
unfolding swap_pending is_committed
commit a =
    let (swapped, p) = swap_pending has_committed a.phase in
    let goes_on = swapped || is_committed p in
    (goes_on, record a { phase = p; emitted = a.emitted || goes_on })

-- What follows the call, which ended in `e`: `gone` if the caller's own context is over
unfoldable pub finish : Ending → Bool → Attempt → Attempt
unfolding swap_pending is_committed is_expired is_failure
finish e gone a =
    let (returned_first, p) = swap_pending returned a.phase in
    let late = is_failure e && not returned_first && is_expired p && not gone in
    record a {
      phase = p;
      cancelled = true;
      result = some (is_committed p, if late then tier_timeout else e);
    }

-- One step. The call commits only before it returns, it returns once, and its own ending is not
-- the budget's.
pub data Step : Attempt → Attempt → Type 0 where
  timer_fires : (a : Attempt) → Step a (expire a)
  call_commits : (a : Attempt) → a.result ≡ none → Step a (commit a).1
  call_returns :
      (a : Attempt) (failed gone : Bool)
      → a.result ≡ none
      → Step a (finish (if failed then own_error else fine) gone a)

-- The states that a run of steps leads to
pub data Reaches : Attempt → Type 0 where
  begins : Reaches start
  goes_on : (a b : Attempt) → Reaches a → Step a b → Reaches b

-- What the phase says of the output
abbrev Agrees : Attempt → Type 0
Agrees a = is_committed a.phase ≡ a.emitted

-- What an ending says of the phase
abbrev Explains : Option (Bool × Ending) → Attempt → Type 0
Explains none a = Unit
Explains (some (committed, e)) a =
    (committed ≡ a.emitted)
    × (is_pending a.phase ≡ false)
    × (e ≡ tier_timeout → is_expired a.phase ≡ true)

abbrev pub Sound : Attempt → Type 0
Sound a = Agrees a × Explains a.result a

abbrev made : Phase → Bool → Bool → Option (Bool × Ending) → Attempt
made p c em r = record { phase = p; cancelled = c; emitted = em; result = r }

expire-Sound :
    (p : Phase) (c em : Bool) (r : Option (Bool × Ending))
    → Sound (made p c em r)
    → Sound (expire (made p c em r))
unfolding expire swap_pending is_pending is_committed is_expired
expire-Sound pending c em none s = (s.0, tt)
expire-Sound pending c em (some (d, e)) s = absurd (ground arith)
expire-Sound has_committed c em r s = s
expire-Sound expired c em r s = s
expire-Sound returned c em r s = s

commit-Sound :
    (p : Phase) (c em : Bool) → Sound (made p c em none) → Sound (commit (made p c em none)).1
unfolding commit swap_pending is_pending is_committed is_expired
commit-Sound pending c em s = ground arith
commit-Sound has_committed c em s = ground arith
commit-Sound expired c em s = ground arith
commit-Sound returned c em s = ground arith

finish-Sound :
    (p : Phase) (c em failed gone : Bool)
    → Sound (made p c em none)
    → Sound (finish (if failed then own_error else fine) gone (made p c em none))
unfolding finish swap_pending is_pending is_committed is_expired is_failure
finish-Sound pending c em true gone s = (s.0, (s.0, refl, λ late. absurd (ground arith)))
finish-Sound pending c em false gone s = (s.0, (s.0, refl, λ late. absurd (ground arith)))
finish-Sound has_committed c em true gone s = (s.0, (s.0, refl, λ late. absurd (ground arith)))
finish-Sound has_committed c em false gone s = (s.0, (s.0, refl, λ late. absurd (ground arith)))
finish-Sound expired c em failed gone s = (s.0, (s.0, refl, λ late. refl))
finish-Sound returned c em true gone s = (s.0, (s.0, refl, λ late. absurd (ground arith)))
finish-Sound returned c em false gone s = (s.0, (s.0, refl, λ late. absurd (ground arith)))

Step-Sound : (a b : Attempt) → Step a b → Sound a → Sound b
Step-Sound _ _ (timer_fires a) s = expire-Sound a.phase a.cancelled a.emitted a.result s
Step-Sound _ _ (call_commits a h) s =
    subst (λ r. Sound (commit (record a { result = r })).1) (sym h)
      (commit-Sound a.phase a.cancelled a.emitted
        (subst (λ r. Sound (record a { result = r })) h s))
Step-Sound _ _ (call_returns a failed gone h) s =
    subst (λ r. Sound (finish (if failed then own_error else fine) gone (record a { result = r })))
      (sym h)
      (finish-Sound a.phase a.cancelled a.emitted failed gone
        (subst (λ r. Sound (record a { result = r })) h s))

expired-not_committed : (p : Phase) → is_expired p ≡ true → is_committed p ≡ false
unfolding is_expired is_committed
expired-not_committed pending h = refl
expired-not_committed has_committed h = absurd (ground arith)
expired-not_committed expired h = refl
expired-not_committed returned h = refl

pub Reaches-Sound : (a : Attempt) → Reaches a → Sound a
unfolding is_committed
Reaches-Sound _ begins = (refl, tt)
Reaches-Sound _ (goes_on a b r step) = Step-Sound a b step (Reaches-Sound a r)

-- However the timer, the commits and the return of a call interleave: what the attempt reports as
-- committed is whether the call was told to go on with its output, and when the attempt ends with the
-- budget's error the call never was.
pub Reaches-Reports :
    (a : Attempt) (committed : Bool) (e : Ending)
    → Reaches a
    → a.result ≡ some (committed, e)
    → (committed ≡ a.emitted) × (e ≡ tier_timeout → a.emitted ≡ false)
Reaches-Reports a committed e r ended =
    let sound = Reaches-Sound a r in
    let explained = subst (λ o. Explains o a) ended sound.1 in
    (explained.0, λ late. sym sound.0 ∙ expired-not_committed a.phase (explained.2 late))
