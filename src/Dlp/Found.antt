-- ===== src/Dlp/Found.antt =====
-- What `ScanWith` finds: spans of the text, apart and in its order.
use ipsupport_airllm.Base.{
  ℕ, ◌≤◌, ◌<◌, inl, inr, Bool, true, false, ◌||◌, not, Option, List, [], ◌∷◌, ◌++◌, length, All,
  All-append, All-weaken, String, leb, if◌then◌else◌, arith, Bool-cases,
}
use ipsupport_airllm.Base.Bytes.{Bytes, slice}
use ipsupport_airllm.Base.Float.{Float}
use ipsupport_airllm.Dlp.Types.{Finding, overlaps_any}
use ipsupport_airllm.Dlp.Patterns.{
  Pattern, CustomPattern, PatternSet, patterns, built_in, pattern_enabled,
}
use ipsupport_airllm.Dlp.Scan.{
  passes, matches_of, scan_patterns, custom_matches, scan_custom, scan_named, entropy_hits,
  scan_with, entropy_candidate, entropy_threshold, mixed_classes, shannon,
}
use ipsupport_airllm.Dlp.Merge.{IsSpan, InOrder, merge-All, merge-InOrder}

-- A place in a text of that length
abbrev pub Within : ℕ → ℕ × ℕ → Type 0
Within n loc = loc.1 ≤ n

abbrev pub NotEmpty : ℕ × ℕ → Type 0
NotEmpty loc = loc.0 < loc.1

-- What is documented of the matches: they lie in the text, and those of the built-in expressions, each of
-- which asks for some character, are not empty.
pub record IsMatcher (find_all : String → Bytes → List (ℕ × ℕ)) : Type 0 where
  pub within : (re : String) (s : Bytes) → All (Within (length s)) (find_all re s)
  pub rules_match : (s : Bytes) → All (λ p. All NotEmpty (find_all p.re s)) patterns
  pub candidates_match : (s : Bytes) → All NotEmpty (find_all entropy_candidate s)

-- A span of the text
abbrev pub InText : ℕ → Finding → Type 0
InText n f = IsSpan f × (f.end ≤ n)

module _ (find_all : String → Bytes → List (ℕ × ℕ)) (law : IsMatcher find_all) where
  matches_of-InText :
      (s label : Bytes) (validate : Option (Bytes → Bool)) (locs : List (ℕ × ℕ))
      → All NotEmpty locs
      → All (Within (length s)) locs
      → All (InText (length s)) (matches_of find_all s label validate locs)
  unfolding matches_of
  matches_of-InText s label validate [] h k = tt
  matches_of-InText s label validate ((start, end) ∷ locs) h k =
      let others = matches_of-InText s label validate locs h.1 k.1 in
      elim (Bool-cases (passes find_all validate (slice s start end))) [
        | inl fine ↦ rw fine ((h.0, k.0), others)
        | inr refused ↦ rw refused others
      ]

  scan_patterns-InText :
      (s : Bytes) (ps : PatternSet) (rules : List Pattern)
      → All (λ p. All NotEmpty (find_all p.re s)) rules
      → All (InText (length s)) (scan_patterns find_all s ps rules)
  unfolding scan_patterns
  scan_patterns-InText s ps [] h = tt
  scan_patterns-InText s ps (p ∷ rules) h =
      let others = scan_patterns-InText s ps rules h.1 in
      elim (Bool-cases (pattern_enabled ps p.label p.default_on)) [
        | inl on ↦ rw on (
            All-append (InText (length s))
              (matches_of find_all s p.label p.validate (find_all p.re s))
              (scan_patterns find_all s ps rules)
              (matches_of-InText s p.label p.validate (find_all p.re s) h.0 (law.within p.re s))
              others)
        | inr off ↦ rw off others
      ]

  custom_matches-InText :
      (n : ℕ) (label : Bytes) (locs : List (ℕ × ℕ))
      → All (Within n) locs
      → All (InText n) (custom_matches find_all label locs)
  unfolding custom_matches
  custom_matches-InText n label [] h = tt
  custom_matches-InText n label ((start, end) ∷ locs) h =
      let others = custom_matches-InText n label locs h.1 in
      elim (Bool-cases (leb end start)) [
        | inl empty ↦ rw empty others
        | inr wide ↦ rw wide ((ground arith, h.0), others)
      ]

  scan_custom-InText :
      (s : Bytes) (cs : List CustomPattern) → All (InText (length s)) (scan_custom find_all s cs)
  unfolding scan_custom
  scan_custom-InText s [] = tt
  scan_custom-InText s (c ∷ cs) =
      All-append (InText (length s)) (custom_matches find_all c.label (find_all c.re s))
        (scan_custom find_all s cs)
        (custom_matches-InText (length s) c.label (find_all c.re s) (law.within c.re s))
        (scan_custom-InText s cs)

  scan_named-InText :
      (s : Bytes) (ps : PatternSet) → All (InText (length s)) (scan_named find_all s ps)
  unfolding scan_named
  scan_named-InText s ps = merge-All (InText (length s)) built_in _ (
      All-append (InText (length s)) (scan_patterns find_all s ps patterns)
        (scan_custom find_all s ps.custom) (scan_patterns-InText s ps patterns (law.rules_match s))
        (scan_custom-InText s ps.custom))

  module _ {F : Type 0} ⦃fl : Float F⦄ (log2 : F → F) where
    entropy_hits-InText :
        (s : Bytes) (named : List Finding) (locs : List (ℕ × ℕ))
        → All NotEmpty locs
        → All (Within (length s)) locs
        → All (InText (length s)) (entropy_hits find_all log2 s named locs)
    unfolding entropy_hits
    entropy_hits-InText s named [] h k = tt
    entropy_hits-InText s named ((start, end) ∷ locs) h k =
        let others = entropy_hits-InText s named locs h.1 k.1 in
        let tok = slice s start end in
        elim (Bool-cases (not (mixed_classes tok) || fl.lt (shannon log2 tok) entropy_threshold)) [
          | inl plain ↦ rw plain others
          | inr random ↦ elim (Bool-cases (overlaps_any start end named)) [
            | inl known ↦ rw (random, known) others
            | inr new ↦ rw (random, new) ((h.0, k.0), others)
          ]
        ]

    -- What a scan finds are spans of the text that are not empty, and each ends before the later ones
    -- start, when the matches of regular expressions lie in the text and those of the built-in
    -- expressions are not empty.
    pub scan_with-InOrder :
        (s : Bytes) (ps : PatternSet)
        → InOrder (scan_with find_all log2 s ps)
          × All (InText (length s)) (scan_with find_all log2 s ps)
    unfolding scan_with
    scan_with-InOrder s ps =
        let named = scan_named find_all s ps in
        let hits = entropy_hits find_all log2 s named (find_all entropy_candidate s) in
        let inside : All (InText (length s)) (if ps.entropy then named ++ hits else named) =
          either ps.entropy named hits (scan_named-InText s ps) (
            entropy_hits-InText s named (find_all entropy_candidate s) (law.candidates_match s)
              (law.within entropy_candidate s)) in
        (
          merge-InOrder built_in (if ps.entropy then named ++ hits else named)
              (All-weaken (λ f h. h.0) (if ps.entropy then named ++ hits else named) inside),
          merge-All (InText (length s)) built_in (if ps.entropy then named ++ hits else named)
              inside,
        )
      where
        either :
            (b : Bool) (named hits : List Finding)
            → All (InText (length s)) named
            → All (InText (length s)) hits
            → All (InText (length s)) (if b then named ++ hits else named)
        either true named hits h k = All-append (InText (length s)) named hits h k
        either false named hits h k = h
