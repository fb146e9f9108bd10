-- ===== src/Dlp/Merge.antt =====
-- What `Merge` keeps: spans that stand apart, in the order of the text.
use ipsupport_airllm.Base.{
  ◌≤◌, ◌<◌, ◌≡◌, ◌⊎◌, inl, inr, Bool, true, false, ◌&&◌, List, [], ◌∷◌, ◌++◌, length, All,
  All-append, ltb, leb, arith, Bool-cases,
}
use ipsupport_airllm.Base.Bytes.{Bytes}
use ipsupport_airllm.Base.Sort.{
  IsSorted, IsWeakOrder, place, stable_sort, All-place, All-stable_sort, stable_sort-IsSorted,
}
use ipsupport_airllm.Dlp.Types.{
  Finding, overlaps_any, starts_before, more_specific, keep_all, merge,
}

abbrev pub IsSpan : Finding → Type 0
IsSpan f = f.start < f.end

abbrev pub Apart : Finding → Finding → Type 0
Apart f g = (f.end ≤ g.start) ⊎ (g.end ≤ f.start)

abbrev pub AllApart : List Finding → Type 0
AllApart [] = Unit
AllApart (f ∷ fs) = All (Apart f) fs × AllApart fs

-- Every finding ends before the later ones start.
abbrev pub InOrder : List Finding → Type 0
InOrder [] = Unit
InOrder (f ∷ fs) = All (λ g. f.end ≤ g.start) fs × InOrder fs

swapped : (f g : Finding) → Apart f g → Apart g f
swapped f g (inl before) = inr before
swapped f g (inr after) = inl after

overlaps_any-Apart :
    (f : Finding) (fs : List Finding) → overlaps_any f.start f.end fs ≡ false → All (Apart f) fs
unfolding overlaps_any
overlaps_any-Apart f [] h = tt
overlaps_any-Apart f (g ∷ fs) h = elim (Bool-cases (ltb f.start g.end && ltb g.start f.end)) [
  | inl meets ↦ absurd (ground arith)
  | inr clear ↦ (ground arith, overlaps_any-Apart f fs (ground arith))
]

AllApart-append :
    (fs : List Finding) (f : Finding) → AllApart fs → All (Apart f) fs → AllApart (fs ++ f ∷ [])
AllApart-append [] f h apart = (tt, tt)
AllApart-append (g ∷ fs) f h apart = (
  All-append (Apart g) fs (f ∷ []) h.0 (swapped f g apart.0, tt),
  AllApart-append fs f h.1 apart.1,
)

keep_all-AllApart : (kept fs : List Finding) → AllApart kept → AllApart (keep_all kept fs)
unfolding keep_all
keep_all-AllApart kept [] h = h
keep_all-AllApart kept (f ∷ fs) h = elim (Bool-cases (overlaps_any f.start f.end kept)) [
  | inl meets ↦ rw meets (keep_all-AllApart kept fs h)
  | inr clear ↦ rw clear (
      keep_all-AllApart (kept ++ f ∷ []) fs
        (AllApart-append kept f h (overlaps_any-Apart f kept clear)))
]

module _ (P : Finding → Type 0) where
  keep_all-All : (kept fs : List Finding) → All P kept → All P fs → All P (keep_all kept fs)
  unfolding keep_all
  keep_all-All kept [] h k = h
  keep_all-All kept (f ∷ fs) h k = elim (Bool-cases (overlaps_any f.start f.end kept)) [
    | inl meets ↦ rw meets (keep_all-All kept fs h k.1)
    | inr clear ↦
        rw clear (keep_all-All (kept ++ f ∷ []) fs (All-append P kept (f ∷ []) h (k.0, tt)) k.1)
  ]

  -- What holds of every finding holds of every one that is kept.
  pub merge-All :
      (order : List Bytes) (input : List Finding) → All P input → All P (merge order input)
  unfolding merge
  merge-All order input h = elim (Bool-cases (leb (length input) 1)) [
    | inl few ↦ rw few h
    | inr many ↦
        let ranked = stable_sort (more_specific order) input in
        rw many (
          All-stable_sort starts_before P (keep_all [] ranked)
            (keep_all-All [] ranked tt (All-stable_sort (more_specific order) P input h)))
  ]

place-AllApart :
    (less : Finding → Finding → Bool) (f : Finding) (fs : List Finding)
    → All (Apart f) fs
    → AllApart fs
    → AllApart (place less f fs)
unfolding place
place-AllApart less f [] apart h = (tt, tt)
place-AllApart less f (g ∷ fs) apart h = elim (Bool-cases (less g f)) [
  | inl before ↦ rw before (
    All-place less (Apart g) f fs (swapped f g apart.0) h.0,
    place-AllApart less f fs apart.1 h.1,
  )
  | inr after ↦ rw after (apart, h)
]

stable_sort-AllApart :
    (less : Finding → Finding → Bool) (fs : List Finding)
    → AllApart fs
    → AllApart (stable_sort less fs)
unfolding stable_sort
stable_sort-AllApart less [] h = tt
stable_sort-AllApart less (f ∷ fs) h =
    place-AllApart less f (stable_sort less fs) (All-stable_sort less (Apart f) fs h.0)
      (stable_sort-AllApart less fs h.1)

starts_before-IsWeakOrder : IsWeakOrder starts_before
starts_before-IsWeakOrder = record {
  asymm = λ a b h. ground arith;
  weak = λ a b c h k. ground arith;
}

follow :
    (f : Finding) (fs : List Finding)
    → All (λ g. starts_before g f ≡ false) fs
    → All (Apart f) fs
    → All IsSpan fs
    → All (λ g. f.end ≤ g.start) fs
follow f [] sorted apart spans = tt
follow f (g ∷ fs) sorted apart spans = (ground arith, follow f fs sorted.1 apart.1 spans.1)

sorted-InOrder :
    (fs : List Finding) → IsSorted starts_before fs → AllApart fs → All IsSpan fs → InOrder fs
sorted-InOrder [] sorted apart spans = tt
sorted-InOrder (f ∷ fs) sorted apart spans =
    (follow f fs sorted.0 apart.0 spans.1, sorted-InOrder fs sorted.1 apart.1 spans.1)

-- Of findings that are not empty, the ones that `Merge` keeps do not overlap, and each ends before the
-- later ones start.
pub merge-InOrder :
    (order : List Bytes) (input : List Finding) → All IsSpan input → InOrder (merge order input)
unfolding merge
merge-InOrder order input spans = elim (Bool-cases (leb (length input) 1)) [
  | inl few ↦ rw few (alone input few)
  | inr many ↦
      let kept = keep_all [] (stable_sort (more_specific order) input) in
      let all : All IsSpan (merge order input) = merge-All IsSpan order input spans in
      rw many (
        sorted-InOrder (stable_sort starts_before kept)
          (stable_sort-IsSorted starts_before starts_before-IsWeakOrder kept)
          (stable_sort-AllApart starts_before kept (keep_all-AllApart [] _ tt)) (rw many at all))
]
  where
    alone : (fs : List Finding) → leb (length fs) 1 ≡ true → InOrder fs
    alone [] h = tt
    alone (f ∷ []) h = (tt, tt)
    alone (f ∷ g ∷ fs) h = absurd (ground arith)
