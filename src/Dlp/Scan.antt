-- ===== src/Dlp/Scan.antt =====
-- internal/dlp/dlp.go, `ScanWith`. The regular expressions' matches are the parameter `find_all`, as
-- `FindAllStringIndex(s, -1)` of the expression of a text answers them.
use ipsupport_airllm.Base.{
  ℕ, zero, suc, ◌+◌, Bool, true, false, ◌&&◌, ◌||◌, not, Option, none, some, List, [], ◌∷◌, ◌++◌,
  length, String, leb, if◌then◌else◌, nat_eqb,
}
use ipsupport_airllm.Base.Bytes.{Bytes, ascii, slice}
use ipsupport_airllm.Base.Float.{Float}
use ipsupport_airllm.Dlp.Types.{Finding, overlaps_any, merge}
use ipsupport_airllm.Dlp.Patterns.{
  Pattern, CustomPattern, PatternSet, patterns, built_in, pattern_enabled, is_digit,
}

abbrev pub entropy_candidate : String
entropy_candidate = "[A-Za-z0-9+/=_\\-]{24,}"

-- The flags `up`, `lo` and `dig` after the loop of `mixedClasses`
abbrev pub is_upper : ℕ → Bool
is_upper c = leb 65 c && leb c 90

abbrev pub is_lower : ℕ → Bool
is_lower c = leb 97 c && leb c 122

unfoldable pub some_byte : (ℕ → Bool) → Bytes → Bool
some_byte test [] = false
some_byte test (c ∷ s) = let rest = some_byte test s in if test c then true else rest

unfoldable pub mixed_classes : Bytes → Bool
unfolding some_byte
mixed_classes s = some_byte is_upper s && some_byte is_lower s && some_byte is_digit s

unfoldable pub count_byte : ℕ → Bytes → ℕ
count_byte b [] = 0
count_byte b (c ∷ s) = let rest = count_byte b s in if nat_eqb b c then rest + 1 else rest

abbrev pub entropy_threshold : {F : Type 0} ⦃fl : Float F⦄ → F
entropy_threshold ⦃fl⦄ = fl.ratio 36 10

module _ {F : Type 0} ⦃fl : Float F⦄ (log2 : F → F) where
  -- The loop over the 256 counts, from the byte `b` on
  unfoldable pub entropy_from : Bytes → ℕ → ℕ → F → F
  unfolding count_byte
  entropy_from s zero b h = h
  entropy_from s (suc bytes) b h =
      let c = count_byte b s in
      let p = fl.div (fl.of_int c) (fl.of_int (length s)) in
      entropy_from s bytes (b + 1) (if nat_eqb c 0 then h else fl.sub h (fl.mul p (log2 p)))

  unfoldable pub shannon : Bytes → F
  unfolding entropy_from
  shannon [] = fl.of_int 0
  shannon (c ∷ s) = entropy_from (c ∷ s) 256 0 (fl.of_int 0)

module _ (find_all : String → Bytes → List (ℕ × ℕ)) where
  abbrev pub passes : Option (Bytes → Bool) → Bytes → Bool
  passes none secret = true
  passes (some validate) secret = validate secret

  unfoldable pub matches_of : Bytes → Bytes → Option (Bytes → Bool) → List (ℕ × ℕ) → List Finding
  matches_of s label validate [] = []
  matches_of s label validate ((start, end) ∷ locs) =
      let others = matches_of s label validate locs in
      if passes validate (slice s start end)
      then record { label = label; start = start; end = end } ∷ others
      else others

  unfoldable pub scan_patterns : Bytes → PatternSet → List Pattern → List Finding
  unfolding matches_of pattern_enabled
  scan_patterns s ps [] = []
  scan_patterns s ps (p ∷ rules) =
      let others = scan_patterns s ps rules in
      if pattern_enabled ps p.label p.default_on
      then matches_of s p.label p.validate (find_all p.re s) ++ others
      else others

  -- Zero-width matches are left out.
  unfoldable pub custom_matches : Bytes → List (ℕ × ℕ) → List Finding
  custom_matches label [] = []
  custom_matches label ((start, end) ∷ locs) =
      let others = custom_matches label locs in
      if leb end start then others else record { label = label; start = start; end = end } ∷ others

  unfoldable pub scan_custom : Bytes → List CustomPattern → List Finding
  unfolding custom_matches
  scan_custom s [] = []
  scan_custom s (c ∷ cs) = custom_matches c.label (find_all c.re s) ++ scan_custom s cs

  unfoldable pub scan_named : Bytes → PatternSet → List Finding
  unfolding scan_patterns scan_custom patterns built_in
  scan_named s ps = merge built_in (scan_patterns s ps patterns ++ scan_custom s ps.custom)

  module _ {F : Type 0} ⦃fl : Float F⦄ (log2 : F → F) where
    unfoldable pub entropy_hits : Bytes → List Finding → List (ℕ × ℕ) → List Finding
    unfolding mixed_classes shannon
    entropy_hits s named [] = []
    entropy_hits s named ((start, end) ∷ locs) =
        let others = entropy_hits s named locs in
        let tok = slice s start end in
        if not (mixed_classes tok) || fl.lt (shannon log2 tok) entropy_threshold
        then others
        else if overlaps_any start end named
        then others
        else record { label = ascii "high_entropy"; start = start; end = end } ∷ others

    unfoldable pub scan_with : Bytes → PatternSet → List Finding
    unfolding scan_named entropy_hits built_in
    scan_with s ps =
        let named = scan_named s ps in
        merge built_in (
          if ps.entropy
          then named ++ entropy_hits s named (find_all entropy_candidate s)
          else named)

    unfoldable pub scan : Bytes → List Finding
    unfolding scan_with
    scan s = scan_with s (record { enabled = none; custom = []; entropy = true })
