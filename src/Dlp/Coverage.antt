-- ===== src/Dlp/Coverage.antt =====
-- What `Merge` drops: nothing that is not under a span at least as specific.
use ipsupport_airllm.Base.{
  ℕ, ◌-◌, ◌<◌, ◌≤◌, ◌≡◌, refl, ◌⊎◌, inl, inr, true, false, ◌&&◌, List, [], ◌∷◌, ◌++◌, length, subst,
  All, All-weaken, Some, ltb, leb, if◌then◌else◌, arith, Bool-cases,
}
use ipsupport_airllm.Base.Bytes.{Bytes}
use ipsupport_airllm.Base.Sort.{
  IsSorted, IsWeakOrder, stable_sort, All-unsort, Some-stable_sort, stable_sort-IsSorted,
}
use ipsupport_airllm.Dlp.Types.{
  Finding, overlaps_any, priority_of, starts_before, more_specific, keep_all, merge,
}

abbrev pub Meets : Finding → Finding → Type 0
Meets f k = (f.start < k.end) × (k.start < f.end)

abbrev pub size : Finding → ℕ
size f = f.end - f.start

-- `k` wins over `f`: its label stands earlier in the order; of two labels of one place the longer span
-- does, and of two spans as long the one that starts no later.
abbrev pub Outranks : List Bytes → Finding → Finding → Type 0
Outranks order k f =
    (priority_of order k.label < priority_of order f.label)
    ⊎ ((priority_of order k.label ≡ priority_of order f.label)
        × ((size f < size k) ⊎ ((size f ≡ size k) × (k.start ≤ f.start))))

-- What stands for `f`: itself, or a span that it meets and that wins over it.
abbrev pub Covers : List Bytes → Finding → Finding → Type 0
Covers order f k = (k ≡ f) ⊎ (Meets f k × Outranks order k f)

outranked :
    (order : List Bytes) (f k : Finding) → more_specific order f k ≡ false → Outranks order k f
unfolding more_specific
outranked order f k h = ground arith

overlaps_any-Some :
    (f : Finding) (fs : List Finding) → overlaps_any f.start f.end fs ≡ true → Some (Meets f) fs
unfolding overlaps_any
overlaps_any-Some f [] h = absurd (ground arith)
overlaps_any-Some f (g ∷ fs) h = elim (Bool-cases (ltb f.start g.end && ltb g.start f.end)) [
  | inl meets ↦ inl (ground arith)
  | inr clear ↦ inr (overlaps_any-Some f fs (ground arith))
]

with-All :
    {P Q R : Finding → Type 0} (f : (x : Finding) → P x → Q x → R x) (fs : List Finding)
    → All P fs
    → Some Q fs
    → Some R fs
with-All f [] ps h = absurd h
with-All f (x ∷ fs) ps (inl here) = inl (f x ps.0 here)
with-All f (x ∷ fs) ps (inr later) = inr (with-All f fs ps.1 later)

module _ (P : Finding → Type 0) where
  Some-append : (fs gs : List Finding) → Some P fs ⊎ Some P gs → Some P (fs ++ gs)
  Some-append [] gs (inl h) = absurd h
  Some-append [] gs (inr h) = h
  Some-append (f ∷ fs) gs (inl (inl here)) = inl here
  Some-append (f ∷ fs) gs (inl (inr later)) = inr (Some-append fs gs (inl later))
  Some-append (f ∷ fs) gs (inr h) = inr (Some-append fs gs (inr h))

  keep_all-Some : (kept fs : List Finding) → Some P kept → Some P (keep_all kept fs)
  unfolding keep_all
  keep_all-Some kept [] h = h
  keep_all-Some kept (f ∷ fs) h = elim (Bool-cases (overlaps_any f.start f.end kept)) [
    | inl meets ↦ rw meets (keep_all-Some kept fs h)
    | inr clear ↦ rw clear (keep_all-Some (kept ++ f ∷ []) fs (Some-append kept (f ∷ []) (inl h)))
  ]

more_specific-IsWeakOrder : (order : List Bytes) → IsWeakOrder (more_specific order)
unfolding more_specific
more_specific-IsWeakOrder order = record {
  asymm = λ a b h. ground arith;
  weak = λ a b c h k. ground arith;
}

module _ (order : List Bytes) where
  -- No finding that is still to come is more specific than one that is kept.
  abbrev NotBefore : List Finding → Finding → Type 0
  NotBefore fs k = All (λ f. more_specific order f k ≡ false) fs

  keep_all-Covers :
      (kept fs : List Finding)
      → All (NotBefore fs) kept
      → IsSorted (more_specific order) fs
      → All (λ f. Some (Covers order f) (keep_all kept fs)) fs
  unfolding keep_all
  keep_all-Covers kept [] before sorted = tt
  keep_all-Covers kept (f ∷ fs) before sorted =
      elim (Bool-cases (overlaps_any f.start f.end kept)) [
        | inl meets ↦ from kept (rw meets refl) (
          keep_all-Some (Covers order f) kept fs (
              with-All (λ k b m. inr (m, outranked order f k b.0)) kept before
                (overlaps_any-Some f kept meets)),
          keep_all-Covers kept fs (later kept before) sorted.1,
        )
        | inr clear ↦ from (kept ++ f ∷ []) (rw clear refl) (
          keep_all-Some (Covers order f) (kept ++ f ∷ []) fs
              (Some-append (Covers order f) kept (f ∷ []) (inr (inl (inl refl)))),
          keep_all-Covers (kept ++ f ∷ []) fs (added kept before) sorted.1,
        )
      ]
    where
      grown : List Finding
      grown = if overlaps_any f.start f.end kept then kept else kept ++ f ∷ []

      from :
          (ks : List Finding)
          → ks ≡ grown
          → All (λ g. Some (Covers order g) (keep_all ks fs)) (f ∷ fs)
          → All (λ g. Some (Covers order g) (keep_all grown fs)) (f ∷ fs)
      from ks e = subst (λ ls. All (λ g. Some (Covers order g) (keep_all ls fs)) (f ∷ fs)) e

      later : (ks : List Finding) → All (NotBefore (f ∷ fs)) ks → All (NotBefore fs) ks
      later [] h = tt
      later (k ∷ ks) h = (h.0.1, later ks h.1)

      added : (ks : List Finding) → All (NotBefore (f ∷ fs)) ks → All (NotBefore fs) (ks ++ f ∷ [])
      added [] h = (sorted.0, tt)
      added (k ∷ ks) h = (h.0.1, added ks h.1)

  to_result :
      (kept fs : List Finding)
      → All (λ f. Some (Covers order f) kept) fs
      → All (λ f. Some (Covers order f) (stable_sort starts_before kept)) fs
  to_result kept fs = All-weaken (λ f. Some-stable_sort starts_before (Covers order f) kept) fs

  -- Every finding is kept by `Merge`, or overlaps one that is kept and wins over it: by the place of its
  -- label, then by its length, then by its start.
  pub merge-Covers :
      (input : List Finding) → All (λ f. Some (Covers order f) (merge order input)) input
  unfolding merge
  merge-Covers input = elim (Bool-cases (leb (length input) 1)) [
    | inl few ↦ rw few (alone input)
    | inr many ↦
        let ranked = stable_sort (more_specific order) input in
        rw many (
          to_result (keep_all [] ranked) input (
            All-unsort (more_specific order) _ input (
              keep_all-Covers [] ranked tt (
                stable_sort-IsSorted (more_specific order) (more_specific-IsWeakOrder order)
                  input))))
  ]
    where
      widen :
          (g : Finding) (gs fs : List Finding)
          → All (λ f. Some (Covers order f) gs) fs
          → All (λ f. Some (Covers order f) (g ∷ gs)) fs
      widen g gs fs = All-weaken (λ f h. inr h) fs

      alone : (fs : List Finding) → All (λ f. Some (Covers order f) fs) fs
      alone [] = tt
      alone (f ∷ fs) = (inl (inl refl), widen f fs fs (alone fs))
