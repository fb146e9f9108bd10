-- ===== src/Limits/Check.antt =====
-- internal/limits/limits.go: `Check` and `Add`, and internal/httpapi/exec.go: what a request asks of them.
-- The state is the four hashes of one key. What Redis answers is a parameter, `Access`: the lock's SETNX
-- calls, and whether each of the calls is carried out. The hashes' expiry is not modelled: Redis drops a
-- hash that no request has used for longer than the longest window.
use ipsupport_airllm.Base.{
  ℕ, zero, suc, Bool, true, false, ◌&&◌, not, Option, none, some, List, [], ◌∷◌, String,
  if◌then◌else◌, string_eq,
}
use ipsupport_airllm.Base.Clock.{Time}
use ipsupport_airllm.Base.Dict.{Dict, lookup}
use ipsupport_airllm.Base.Float.{Float}
use ipsupport_airllm.Base.Ints.{ℤ, pos, neg, ◌+ℤ◌, leqℤ, is_zero, is_positive}
use ipsupport_airllm.Limits.Buckets.{
  Window, windows, Hash, bucket_stamp, incr_by, sum_window, prune,
}

-- internal/policy/policy.go, `Limits`
pub record Limits (F : Type 0) : Type 0 where
  pub tokens : Dict String ℤ
  pub cost_usd : Dict String F
  pub audio_seconds : Dict String ℤ
  pub tts_chars : Dict String ℤ

pub data UnitName : Type 0 where
  in_tokens in_cost_usd in_audio_seconds in_tts_chars : UnitName

pub record Denial : Type 0 where
  pub window : String
  pub measure : UnitName
  pub limit : ℤ
  pub used : ℤ

-- A decision: `refused` with the cap, or `allowed` with what was reserved, and in which bucket.
pub data Decision : Type 0 where
  refused : Denial → Decision
  allowed : ℤ → ℕ → Decision

pub record Usage : Type 0 where
  pub tok : Hash
  pub cost : Hash
  pub audio : Hash
  pub tts : Hash

-- The answers to SETNX, none for an error; whether the reads, the pruning and the reservation are done
pub record Access : Type 0 where
  pub locks : List (Option Bool)
  pub reads : Bool
  pub prunes : Bool
  pub reserves : Bool

-- `lockKey`: whether the lock is held, after at most so many calls. An answer that is not in the list
-- is an error.
unfoldable pub lock_key : ℕ → List (Option Bool) → Bool
lock_key zero answers = false
lock_key (suc retries) [] = false
lock_key (suc retries) (none ∷ answers) = false
lock_key (suc retries) (some true ∷ answers) = true
lock_key (suc retries) (some false ∷ answers) = lock_key retries answers

abbrev pub lock_retries : ℕ
lock_retries = 5

abbrev pub is_empty : {V : Type 0} → Dict String V → Bool
is_empty [] = true
is_empty (e ∷ d) = false

-- One test of the loop: the cap of the window, where there is one that is reached
unfoldable pub reached : Option ℤ → Window → UnitName → ℤ → Option Denial
reached none win unit used = none
reached (some limit) win unit used =
    if is_positive limit && leqℤ limit used
    then some (record { window = win.name; measure = unit; limit = limit; used = used })
    else none

-- The cost's test has no guard on the cap in millionths.
unfoldable pub reached_micro : Option ℤ → Window → ℤ → Option Denial
reached_micro none win used = none
reached_micro (some limit) win used =
    if leqℤ limit used
    then some (record { window = win.name; measure = in_cost_usd; limit = limit; used = used })
    else none

abbrev pub or_else : {A : Type 0} → Option A → Option A → Option A
or_else none later = later
or_else (some a) later = some a

abbrev pub is_unlimited : {F : Type 0} → Limits F → Bool
is_unlimited lim =
    is_empty lim.tokens
    && is_empty lim.cost_usd
    && is_empty lim.audio_seconds
    && is_empty lim.tts_chars

unfoldable pub pruned : Access → Time → Usage → Usage
unfolding prune
pruned a now u =
    if a.prunes
    then record {
      tok = prune now u.tok;
      cost = prune now u.cost;
      audio = prune now u.audio;
      tts = prune now u.tts;
    }
    else u

-- The reservation at the end of `Check`
unfoldable pub reserve : Bool → Access → Time → ℤ → Usage → Decision × Usage
unfolding incr_by bucket_stamp
reserve wanted a now n u =
    if wanted && a.reserves
    then (allowed n (bucket_stamp now), record u { tok = incr_by (bucket_stamp now) n u.tok })
    else (allowed (pos 0) 0, u)

module _ {F : Type 0} ⦃fl : Float F⦄ (int64_of : F → ℤ) where
  -- The cap on cost in millionths of a dollar, where it is more than zero dollars
  unfoldable pub max_micro : Option F → Option ℤ
  max_micro none = none
  max_micro (some usd) =
      if fl.lt (fl.of_int 0) usd then some (int64_of (fl.mul usd (fl.of_int 1_000_000))) else none

  unfoldable pub denial_in : Limits F → Time → Usage → Window → Option Denial
  unfolding reached reached_micro max_micro
  denial_in lim now u win =
      or_else (reached (lookup win.name lim.tokens) win in_tokens (sum_window now win u.tok)) (
        or_else
          (reached_micro (max_micro (lookup win.name lim.cost_usd)) win (sum_window now win u.cost))
          (or_else
            (reached (lookup win.name lim.audio_seconds) win in_audio_seconds
              (sum_window now win u.audio))
            (reached (lookup win.name lim.tts_chars) win in_tts_chars (sum_window now win u.tts))))

  -- The loop over the windows
  unfoldable pub denial : Limits F → Time → Usage → List Window → Option Denial
  unfolding denial_in
  denial lim now u [] = none
  denial lim now u (win ∷ wins) = or_else (denial_in lim now u win) (denial lim now u wins)

  -- `Check` from the lock on: the sums are of what was read, before the pruning.
  unfoldable pub check_held : Bool → Access → Limits F → Time → ℤ → Usage → Decision × Usage
  unfolding denial pruned reserve
  check_held wanted a lim now n u =
      let u' = pruned a now u in
      elim (denial lim now u windows) [
        | some d ↦ (refused d, u')
        | none ↦ reserve wanted a now n u'
      ]

  -- The decision, and whether there is an error
  unfoldable pub check : Access → Limits F → Time → ℤ → Usage → (Decision × Bool) × Usage
  unfolding check_held lock_key
  check a lim now n u =
      let wanted = is_positive n && not (is_empty lim.tokens) && lock_key lock_retries a.locks in
      let (d, u') = check_held wanted a lim now n u in
      if is_unlimited lim
      then ((allowed (pos 0) 0, false), u)
      else if a.reads
      then ((d, false), u')
      else ((allowed (pos 0) 0, true), u)

  -- internal/httpapi/exec.go, `limitDenied`: the cap to answer with, or the decision to go on with
  unfoldable pub limit_denied : Access → Limits F → Time → ℤ → Usage → Decision × Usage
  unfolding check
  limit_denied a lim now n u =
      let ((d, failed), u') = check a lim now n u in
      if failed then (allowed (pos 0) 0, u') else (d, u')

-- internal/httpapi/exec.go, `reserveTokensFor`
abbrev pub default_token_reservation : ℤ
default_token_reservation = pos 4096

unfoldable pub reserve_tokens_for : Option ℤ → ℤ
reserve_tokens_for none = default_token_reservation
reserve_tokens_for (some max_tokens) =
    if is_positive max_tokens then max_tokens else default_token_reservation

-- An increment of `Add`: none for a quantity of zero
unfoldable pub add_to : ℕ → ℤ → Hash → Hash
unfolding incr_by
add_to field n h = if is_zero n then h else incr_by field n h

-- `Add`, when the pipeline is carried out or not
unfoldable pub add : Bool → Time → ℤ → ℤ → ℤ → ℤ → ℤ → ℕ → Usage → Usage
unfolding add_to bucket_stamp
add done now tokens cost audio tts reserved bucket u =
    let now_field = bucket_stamp now in
    let tok_field = if is_zero reserved then now_field else bucket in
    let tok_delta = if is_zero reserved then tokens else tokens +ℤ neg reserved in
    if done
    then record {
      tok = add_to tok_field tok_delta u.tok;
      cost = add_to now_field cost u.cost;
      audio = add_to now_field audio u.audio;
      tts = add_to now_field tts u.tts;
    }
    else u

-- internal/httpapi/exec.go: what `finalizeUsage` adds, for a request that ended well or not
unfoldable pub finalize_limits : Bool → Bool → Time → ℤ → ℤ → ℤ → ℕ → Usage → Usage
unfolding add
finalize_limits done billable now tokens cost reserved bucket u =
    if billable
    then add done now tokens cost (pos 0) (pos 0) reserved bucket u
    else if not (is_zero reserved)
    then add done now (pos 0) (pos 0) (pos 0) (pos 0) reserved bucket u
    else u
