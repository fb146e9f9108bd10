-- ===== src/Tests/Secrets.antt =====
-- Runs of the search for secrets, of their merging and of the redaction.
use ipsupport_airllm.Base.{
  ℕ, ◌<◌, ◌≤◌, ◌≡◌, ◌≢◌, refl, Bool, true, false, Option, none, some, List, [], ◌∷◌, ◌++◌, length,
  All, Some, String, nat_eqb, if◌then◌else◌, arith,
}
use ipsupport_airllm.Base.Bytes.{Bytes, ascii}
use ipsupport_airllm.Tests.Data.{thousandths}
use ipsupport_airllm.Dlp.Types.{Finding, Unicode, merge, redact, labels}
use ipsupport_airllm.Dlp.Patterns.{Pattern, PatternSet, patterns, built_in, luhn_valid, ipv4_valid}
use ipsupport_airllm.Dlp.Scan.{scan_with, entropy_candidate}
use ipsupport_airllm.Dlp.Merge.{InOrder, merge-InOrder}
use ipsupport_airllm.Dlp.Coverage.{Covers, merge-Covers}
use ipsupport_airllm.Dlp.Redact.{Part, assemble, spans, expected, public_parts, redact-expected}
use ipsupport_airllm.Dlp.Checks.{luhn_valid-changed}
use ipsupport_airllm.Dlp.Found.{IsMatcher, InText, NotEmpty, Within, scan_with-InOrder}

abbrev span : String → ℕ → ℕ → Finding
span label start end = record { label = ascii label; start = start; end = end }

-- A key inside a longer token, and an address after them
abbrev hits : List Finding
hits = span "email" 30 44 ∷ span "high_entropy" 0 28 ∷ span "openai_key" 4 28 ∷ []

merged : merge built_in hits ≡ span "openai_key" 4 28 ∷ span "email" 30 44 ∷ []
unfolding merge built_in patterns ipsupport_airllm.Base.Sort.stable_sort
    ipsupport_airllm.Dlp.Types.keep_all ipsupport_airllm.Dlp.Types.more_specific
    ipsupport_airllm.Dlp.Types.priority_of ipsupport_airllm.Base.Bytes.bytes_equal
    ipsupport_airllm.Dlp.Types.overlaps_any
merged = refl

merge-InOrder_example : InOrder (merge built_in hits)
merge-InOrder_example = merge-InOrder built_in hits (omega arith, (omega arith, (omega arith, tt)))

merge-Covers_example : All (λ f. Some (Covers built_in f) (merge built_in hits)) hits
merge-Covers_example = merge-Covers built_in hits

abbrev bytewise : Unicode
bytewise = record { runes = λ s. s; is_space = λ r. nat_eqb r 32 }

-- "Dear Ann Lee: 12", where the two names are one person's and the number is a secret
abbrev letter : List Part
letter =
    record { gap = ascii "Dear "; label = ascii "person"; secret = ascii "Ann" }
    ∷ record { gap = ascii " "; label = ascii "person"; secret = ascii "Lee" }
    ∷ record { gap = ascii ": "; label = ascii "code"; secret = ascii "12" }
    ∷ []

redact-expected_example :
    redact bytewise (assemble letter (ascii ".")) (spans 0 letter)
    ≡ expected bytewise (public_parts bytewise letter) (ascii ".")
redact-expected_example = redact-expected bytewise letter (ascii ".")

redacted :
    redact bytewise (assemble letter (ascii ".")) (spans 0 letter)
    ≡ ascii "Dear [REDACTED:person]: [REDACTED:code]."
unfolding redact ipsupport_airllm.Base.Bytes.bytes_equal ipsupport_airllm.Dlp.Types.all_space
    ipsupport_airllm.Dlp.Types.marker
redacted = refl

card_valid : luhn_valid (ascii "41111111" ++ 49 ∷ ascii "1111111") ≡ true
unfolding luhn_valid
card_valid = refl

luhn_valid-changed_example : luhn_valid (ascii "41111111" ++ 50 ∷ ascii "1111111") ≡ false
luhn_valid-changed_example =
    luhn_valid-changed (ascii "41111111") (ascii "1111111") 49 50 refl refl (λ e. omega (arith, e))
      card_valid

ipv4_test : ipv4_valid (ascii "10.0.0.255") ≡ true
unfolding ipv4_valid
ipv4_test = refl

-- Expressions that match a whole text that is not empty
abbrev whole : String → Bytes → List (ℕ × ℕ)
whole re [] = []
whole re (c ∷ s) = (0, length (c ∷ s)) ∷ []

whole-Within : (re : String) (s : Bytes) → All (Within (length s)) (whole re s)
whole-Within re [] = tt
whole-Within re (c ∷ s) = (omega arith, tt)

whole-NotEmpty : (re : String) (s : Bytes) → All NotEmpty (whole re s)
whole-NotEmpty re [] = tt
whole-NotEmpty re (c ∷ s) = (omega arith, tt)

rules-NotEmpty : (s : Bytes) (rules : List Pattern) → All (λ p. All NotEmpty (whole p.re s)) rules
rules-NotEmpty s [] = tt
rules-NotEmpty s (p ∷ rules) = (whole-NotEmpty p.re s, rules-NotEmpty s rules)

whole-IsMatcher : IsMatcher whole
whole-IsMatcher = record {
  within = whole-Within;
  rules_match = λ s. rules-NotEmpty s patterns;
  candidates_match = λ s. whole-NotEmpty entropy_candidate s;
}

-- In place of the logarithm
abbrev same : ℕ → ℕ
same x = x

abbrev default_set : PatternSet
default_set = record { enabled = none; custom = []; entropy = true }

scan_with-InOrder_example :
    InOrder (scan_with whole same (ascii "sk-12") default_set)
    × All (InText 5) (scan_with whole same (ascii "sk-12") default_set)
scan_with-InOrder_example = scan_with-InOrder whole whole-IsMatcher same (ascii "sk-12") default_set
