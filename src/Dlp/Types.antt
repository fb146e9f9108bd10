-- ===== src/Dlp/Types.antt =====
-- internal/dlp/dlp.go: a finding, and how findings are merged and cut out of a text. What Go's library
-- does with runes is a parameter, `Unicode`.
use ipsupport_airllm.Base.{
  ℕ, ◌+◌, ◌-◌, Bool, true, false, ◌&&◌, ◌||◌, not, List, [], ◌∷◌, ◌++◌, length, drop, ltb, leb,
  if◌then◌else◌, nat_eqb, ◌==◌,
}
use ipsupport_airllm.Base.Bytes.{Bytes, ascii, slice, bytes_eq}
use ipsupport_airllm.Base.Sort.{stable_sort}

pub record Finding : Type 0 where
  pub label : Bytes
  pub start : ℕ
  pub end : ℕ

-- `range s` over a string, and `unicode.IsSpace`
pub record Unicode : Type 0 where
  pub runes : Bytes → List ℕ
  pub is_space : ℕ → Bool

-- `overlapsAny`
unfoldable pub overlaps_any : ℕ → ℕ → List Finding → Bool
overlaps_any start end [] = false
overlaps_any start end (f ∷ fs) =
    let later = overlaps_any start end fs in
    if ltb start f.end && ltb f.start end then true else later

-- `Labels` is the list of the built-in labels, most specific first: `priorityOf` is the place there.
unfoldable pub priority_of : List Bytes → Bytes → ℕ
priority_of [] label = 0
priority_of (l ∷ ls) label = let later = priority_of ls label in if l == label then 0 else later + 1

-- The comparison of the first sort of `Merge`
unfoldable pub more_specific : List Bytes → Finding → Finding → Bool
more_specific order a b =
    let pa = priority_of order a.label in
    let pb = priority_of order b.label in
    if not (nat_eqb pa pb)
    then ltb pa pb
    else if not (nat_eqb (a.end - a.start) (b.end - b.start))
    then ltb (b.end - b.start) (a.end - a.start)
    else ltb a.start b.start

-- The comparison of the second
abbrev pub starts_before : Finding → Finding → Bool
starts_before a b = ltb a.start b.start

-- The loop over `ranked`
unfoldable pub keep_all : List Finding → List Finding → List Finding
keep_all kept [] = kept
keep_all kept (f ∷ fs) =
    keep_all (if overlaps_any f.start f.end kept then kept else kept ++ f ∷ []) fs

unfoldable pub merge : List Bytes → List Finding → List Finding
merge order input =
    if leb (length input) 1
    then input
    else stable_sort starts_before (keep_all [] (stable_sort (more_specific order) input))

-- `isBlank`
unfoldable pub all_space : (ℕ → Bool) → List ℕ → Bool
all_space is_space [] = true
all_space is_space (r ∷ rs) = let rest = all_space is_space rs in if is_space r then rest else false

unfoldable pub marker : Bytes → Bytes
marker label = ascii "[REDACTED:" ++ label ++ ascii "]"

module _ (unicode : Unicode) where
  unfoldable pub is_blank : Bytes → Bool
  is_blank s = all_space unicode.is_space (unicode.runes s)

  -- The test of `coalesceAdjacent`: the finding goes on with the one before it.
  unfoldable pub adjacent : Bytes → Finding → Finding → Bool
  adjacent s prev f =
      (prev.label == f.label)
      && leb prev.end f.start
      && leb f.end (length s)
      && is_blank (slice s prev.end f.start)

  -- The loop of `coalesceAdjacent` from a state in which `prev` is the last of `out`
  unfoldable pub coalesce_from : Bytes → Finding → List Finding → List Finding
  unfolding adjacent is_blank
  coalesce_from s prev [] = prev ∷ []
  coalesce_from s prev (f ∷ fs) = elim (adjacent s prev f) [
    | true ↦ coalesce_from s (if ltb prev.end f.end then record prev { end = f.end } else prev) fs
    | false ↦ prev ∷ coalesce_from s f fs
  ]

  unfoldable pub coalesce_adjacent : Bytes → List Finding → List Finding
  unfolding coalesce_from
  coalesce_adjacent s [] = []
  coalesce_adjacent s (f ∷ fs) = coalesce_from s f fs

  -- The loop of `Redact`: what is written from `prev` on
  unfoldable pub redact_from : Bytes → ℕ → List Finding → Bytes
  redact_from s prev [] = drop prev s
  redact_from s prev (f ∷ fs) =
      elim (ltb f.start prev || ltb (length s) f.start || ltb (length s) f.end) [
        | true ↦ redact_from s prev fs
        | false ↦ slice s prev f.start ++ marker f.label ++ redact_from s f.end fs
      ]

  unfoldable pub redact : Bytes → List Finding → Bytes
  unfolding redact_from coalesce_adjacent
  redact s [] = s
  redact s (f ∷ fs) = redact_from s 0 (coalesce_adjacent s (f ∷ fs))

-- `Labels`: the labels without repetition, in the order of strings
unfoldable pub byte_less : Bytes → Bytes → Bool
byte_less xs [] = false
byte_less [] (y ∷ ys) = true
byte_less (x ∷ xs) (y ∷ ys) =
    let rest = byte_less xs ys in if ltb x y then true else if ltb y x then false else rest

unfoldable pub label_set : List Finding → List Bytes
label_set [] = []
label_set (f ∷ fs) = add f.label (label_set fs)
  where
    add : Bytes → List Bytes → List Bytes
    add l [] = l ∷ []
    add l (m ∷ ms) = let later = add l ms in if l == m then m ∷ ms else m ∷ later

unfoldable pub labels : List Finding → List Bytes
unfolding label_set byte_less
labels fs = stable_sort byte_less (label_set fs)
