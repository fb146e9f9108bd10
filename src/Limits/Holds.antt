-- ===== src/Limits/Holds.antt =====
-- What a reservation does to the sums that the next check reads.
use ipsupport_airllm.Base.{
  ◌-◌, ◌*◌, ◌/◌, ◌≤◌, ◌≡◌, refl, ap, ◌∙◌, inl, inr, true, false, Option, none, some, All, ltb,
  if◌then◌else◌, arith, Bool-cases,
}
use ipsupport_airllm.Base.Clock.{Time, minute}
use ipsupport_airllm.Base.Float.{Float}
use ipsupport_airllm.Base.Ints.{ℤ, pos, ◌+ℤ◌, is_positive}
use ipsupport_airllm.Limits.Buckets.{
  Window, windows, Hash, sum_window, sum_from, bucket_stamp, incr_by, unix, max_window,
}
use ipsupport_airllm.Limits.Check.{
  Limits, Denial, Decision, refused, allowed, Usage, Access, denial, pruned, reserve, check_held,
  check, limit_denied, is_empty, lock_key, lock_retries,
}
use ipsupport_airllm.Limits.Windows.{sum_from-incr_by, sum_window-prune}

-- The bucket of an instant lies in every window that is not shorter than a bucket.
incr_by-sum_window :
    (now : Time) (win : Window) (n : ℤ) (h : Hash)
    → 300 * minute ≤ win.dur
    → sum_window now win (incr_by (bucket_stamp now) n h) ≡ n +ℤ sum_window now win h
unfolding sum_window bucket_stamp
incr_by-sum_window now win n h long =
    let recent : ltb (unix now / 300 * 300) (unix (now - win.dur)) ≡ false = ground arith in
    sum_from-incr_by (unix (now - win.dur)) (unix now / 300 * 300) n h
    ∙ ap (λ b. (if b then pos 0 else n) +ℤ sum_from (unix (now - win.dur)) h) recent

-- The windows' sums of tokens, raised by so much
abbrev pub Raised : Time → ℤ → Hash → Hash → Type 0
Raised now n h h' = All (λ win. sum_window now win h' ≡ n +ℤ sum_window now win h) windows

incr_by-Raised : (now : Time) (n : ℤ) (h : Hash) → Raised now n h (incr_by (bucket_stamp now) n h)
incr_by-Raised now n h = (
  incr_by-sum_window now (record { name = "5h"; dur = 300 * minute }) n h (omega arith),
  (
    incr_by-sum_window now (record { name = "24h"; dur = 1440 * minute }) n h (omega arith),
    (incr_by-sum_window now (record { name = "7d"; dur = max_window }) n h (omega arith), tt),
  ),
)

Raised-same :
    (now : Time) (n : ℤ) (h p k : Hash)
    → All (λ win. sum_window now win p ≡ sum_window now win h) windows
    → Raised now n p k
    → Raised now n h k
Raised-same now n h p k same raised = (
  raised.0 ∙ ap (λ x. n +ℤ x) same.0,
  (raised.1.0 ∙ ap (λ x. n +ℤ x) same.1.0, (raised.1.1.0 ∙ ap (λ x. n +ℤ x) same.1.1.0, tt)),
)

pruned-same :
    (a : Access) (now : Time) (u : Usage)
    → All (λ win. sum_window now win (pruned a now u).tok ≡ sum_window now win u.tok) windows
unfolding pruned
pruned-same a now u = elim (Bool-cases a.prunes) [
  | inl prunes ↦ rw prunes (sum_window-prune now now u.tok (omega arith))
  | inr keeps ↦ rw keeps (refl, (refl, (refl, tt)))
]

module _ {F : Type 0} ⦃fl : Float F⦄ (int64_of : F → ℤ) (lim : Limits F) (now : Time)
    (u : Usage) where
  -- An allowed request has reserved that much, and every window's sum of tokens has grown by it.
  abbrev pub Reserves : ℤ → Decision × Usage → Type 0
  Reserves n (refused d, u') = Unit
  Reserves n (allowed m bucket, u') = (m ≡ n) × Raised now n u.tok u'.tok

  check_held-Reserves :
      (a : Access) (n : ℤ) → a.reserves ≡ true → Reserves n (check_held int64_of true a lim now n u)
  unfolding check_held reserve
  check_held-Reserves a n writes = decided (denial int64_of lim now u windows)
    where
      reserved : Reserves n (reserve true a now n (pruned a now u))
      reserved = rw writes (
        refl,
        Raised-same now n u.tok (pruned a now u).tok
            (incr_by (bucket_stamp now) n (pruned a now u).tok) (pruned-same a now u)
            (incr_by-Raised now n (pruned a now u).tok),
      )

      decided :
          (o : Option Denial)
          → Reserves n (elim o as (λ _. Decision × Usage) [
            | some d ↦ (refused d, pruned a now u)
            | none ↦ reserve true a now n (pruned a now u)
          ])
      decided none = reserved
      decided (some d) = tt

  -- A request that holds the key's lock, asks for headroom on a key with a cap on tokens, and finds
  -- Redis answering, is refused, or has reserved all it asked for: whoever holds the lock next reads
  -- sums that are larger by as much, whatever was pruned.
  pub limit_denied-Reserves :
      (a : Access) (n : ℤ)
      → a.reads ≡ true
      → a.reserves ≡ true
      → lock_key lock_retries a.locks ≡ true
      → is_positive n ≡ true
      → is_empty lim.tokens ≡ false
      → Reserves n (limit_denied int64_of a lim now n u)
  unfolding limit_denied check
  limit_denied-Reserves a n answers writes locked asks capped =
      rw (answers, locked, asks, capped) (check_held-Reserves a n writes)
