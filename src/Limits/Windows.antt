-- ===== src/Limits/Windows.antt =====
-- The sums of a hash: what an increment does to them, and what pruning does not.
use ipsupport_airllm.Base.{
  ℕ, ◌+◌, ◌-◌, ◌*◌, ◌≤◌, ◌<◌, ◌≡◌, refl, sym, ap, ◌∙◌, List, [], ◌∷◌, All, All-weaken, ltb,
  if◌then◌else◌, ◌==◌, nat_eq, arith, inl, inr, Bool-cases,
}
use ipsupport_airllm.Base.Clock.{Time, minute}
use ipsupport_airllm.Base.Dict.{delete}
use ipsupport_airllm.Base.Ints.{ℤ, pos, ◌+ℤ◌, addℤ_comm, addℤ_assoc, addℤ_zero, zero_addℤ}
use ipsupport_airllm.Limits.Buckets.{
  Window, windows, Hash, incr_by, sum_from, sum_window, expired_fields, delete_all, prune, unix,
  max_window, bucket_size,
}

-- What a bucket counts for in the sum from a cutoff on
abbrev pub counted : ℕ → ℕ → ℤ → ℤ
counted cutoff stamp n = if ltb stamp cutoff then pos 0 else n

left_swap : (a b c : ℤ) → a +ℤ (b +ℤ c) ≡ b +ℤ (a +ℤ c)
left_swap a b c = sym (addℤ_assoc a b c) ∙ ap (λ x. x +ℤ c) (addℤ_comm a b) ∙ addℤ_assoc b a c

pub sum_from-cons :
    (cutoff s : ℕ) (v : ℤ) (h : Hash)
    → sum_from cutoff ((s, v) ∷ h) ≡ counted cutoff s v +ℤ sum_from cutoff h
unfolding sum_from
sum_from-cons cutoff s v h = elim (Bool-cases (ltb s cutoff)) [
  | inl old ↦ rw old (sym (zero_addℤ (sum_from cutoff h)))
  | inr new ↦ rw new refl
]

counted-add :
    (cutoff s : ℕ) (v n : ℤ) → counted cutoff s (v +ℤ n) ≡ counted cutoff s n +ℤ counted cutoff s v
counted-add cutoff s v n = elim (Bool-cases (ltb s cutoff)) [
  | inl old ↦ rw old (sym (addℤ_zero (pos 0)))
  | inr new ↦ rw new (addℤ_comm v n)
]

-- An increment raises the sum by what it counts for.
pub sum_from-incr_by :
    (cutoff stamp : ℕ) (n : ℤ) (h : Hash)
    → sum_from cutoff (incr_by stamp n h) ≡ counted cutoff stamp n +ℤ sum_from cutoff h
unfolding incr_by
sum_from-incr_by cutoff stamp n [] =
    sum_from-cons cutoff stamp (pos 0 +ℤ n) []
    ∙ ap (λ x. counted cutoff stamp x +ℤ sum_from cutoff []) (zero_addℤ n)
sum_from-incr_by cutoff stamp n ((s, v) ∷ h) = elim (Bool-cases (stamp == s)) [
  | inl found ↦
      let e : stamp ≡ s = ground arith in
      rw found (
        sum_from-cons cutoff s (v +ℤ n) h
        ∙ ap (λ x. x +ℤ sum_from cutoff h) (counted-add cutoff s v n)
        ∙ addℤ_assoc (counted cutoff s n) (counted cutoff s v) (sum_from cutoff h)
        ∙ ap (λ x. counted cutoff s n +ℤ x) (sym (sum_from-cons cutoff s v h))
        ∙ ap (λ t. counted cutoff t n +ℤ sum_from cutoff ((s, v) ∷ h)) (sym e))
  | inr other ↦ rw other (
      sum_from-cons cutoff s v (incr_by stamp n h)
      ∙ ap (λ x. counted cutoff s v +ℤ x) (sum_from-incr_by cutoff stamp n h)
      ∙ left_swap (counted cutoff s v) (counted cutoff stamp n) (sum_from cutoff h)
      ∙ ap (λ x. counted cutoff stamp n +ℤ x) (sym (sum_from-cons cutoff s v h)))
]

sum_from-delete :
    (cutoff stamp : ℕ) (h : Hash)
    → stamp < cutoff
    → sum_from cutoff (delete stamp h) ≡ sum_from cutoff h
unfolding sum_from delete
sum_from-delete cutoff stamp [] old = refl
sum_from-delete cutoff stamp ((s, v) ∷ h) old = ground (arith, sum_from-delete cutoff stamp h old)

sum_from-delete_all :
    (cutoff : ℕ) (stamps : List ℕ) (h : Hash)
    → All (λ s. s < cutoff) stamps
    → sum_from cutoff (delete_all stamps h) ≡ sum_from cutoff h
unfolding delete_all
sum_from-delete_all cutoff [] h old = refl
sum_from-delete_all cutoff (s ∷ ss) h old =
    sum_from-delete_all cutoff ss (delete s h) old.1 ∙ sum_from-delete cutoff s h old.0

expired_fields-All : (cutoff : ℕ) (h : Hash) → All (λ s. s < cutoff) (expired_fields cutoff h)
unfolding expired_fields
expired_fields-All cutoff [] = tt
expired_fields-All cutoff ((s, v) ∷ h) = elim (Bool-cases (ltb s cutoff)) [
  | inl old ↦ rw old (ground arith, expired_fields-All cutoff h)
  | inr new ↦ rw new (expired_fields-All cutoff h)
]

-- Pruning takes nothing from the sum of any window, then or at any later time.
pub sum_window-prune :
    (now later : Time) (h : Hash)
    → now ≤ later
    → All (λ win. sum_window later win (prune now h) ≡ sum_window later win h) windows
unfolding prune sum_window
sum_window-prune now later h order =
    let kept = λ (win : Window) (short : win.dur ≤ max_window).
      sum_from-delete_all (unix (later - win.dur))
        (expired_fields (unix (now - (max_window + bucket_size))) h) h
        (All-weaken (λ s old. ground arith)
          (expired_fields (unix (now - (max_window + bucket_size))) h)
          (expired_fields-All (unix (now - (max_window + bucket_size))) h)) in
    (
      kept (record { name = "5h"; dur = 300 * minute }) (omega arith),
      (
        kept (record { name = "24h"; dur = 1440 * minute }) (omega arith),
        (kept (record { name = "7d"; dur = max_window }) (omega arith), tt),
      ),
    )
