-- ===== src/Unavail/Backoff.antt =====
-- The backoff of failures that come one after another.
use ipsupport_airllm.Base.{
  ℕ, zero, suc, ◌*◌, ◌^◌, ◌≤◌, ◌<◌, min, ◌≡◌, ◌∙◌, le-mul-pow, pow-double, none, some, arith,
}
use ipsupport_airllm.Base.Clock.{Time, Duration, millisecond}
use ipsupport_airllm.Unavail.{next_backoff, mark_of}

-- The duration of the n-th mark after the first, none of which carried a Retry-After.
unfoldable pub nth_backoff : Duration → Duration → (ℕ → Time) → ℕ → Duration
nth_backoff initial top at zero = next_backoff none none initial top
nth_backoff initial top at (suc n) =
    next_backoff none (some (mark_of (at n) (nth_backoff initial top at n))) initial top

next_backoff-double :
    (v i m : ℕ) (now : Time)
    → 0 < v
    → v ≤ m
    → next_backoff none (some (mark_of now (v * millisecond))) (i * millisecond) (m * millisecond)
      ≡ min (v * 2) m * millisecond
unfolding next_backoff mark_of
next_backoff-double v i m now pos le = ground arith

-- With an initial backoff of i milliseconds, not 0, and a cap of m milliseconds at or above it, the
-- failures of a target back off by i, 2i, 4i … milliseconds up to the cap, whenever they come.
pub nth_backoff-eq-min :
    (i m : ℕ) (at : ℕ → Time) (n : ℕ)
    → 0 < i
    → i ≤ m
    → nth_backoff (i * millisecond) (m * millisecond) at n ≡ min (i * 2 ^ n) m * millisecond
unfolding nth_backoff next_backoff
nth_backoff-eq-min i m at zero pos le = omega arith
nth_backoff-eq-min i m at (suc n) pos le = rw (nth_backoff-eq-min i m at n pos le) (
    next_backoff-double (min (i * 2 ^ n) m) i m (at n) (omega (arith, le-mul-pow n i)) (omega arith)
    ∙ omega (arith, pow-double n i))
