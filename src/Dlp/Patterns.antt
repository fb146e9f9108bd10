-- ===== src/Dlp/Patterns.antt =====
-- internal/dlp/dlp.go: the built-in rules, the checks that a match of theirs must pass, and what a
-- workspace has turned on. A rule's regular expression is its text; what it matches is a parameter.
use mathlib.Core.Option
use ipsupport_airllm.Base.{
  ℕ, ◌+◌, ◌-◌, ◌*◌, ◌%◌, Bool, true, false, ◌&&◌, ◌||◌, not, Option, none, some, List, [], ◌∷◌,
  ◌++◌, length, map, String, ltb, leb, if◌then◌else◌, nat_eqb,
}
use ipsupport_airllm.Base.Bytes.{Bytes, ascii, bytes_eq}
use ipsupport_airllm.Base.Dict.{Dict, lookup}

-- `c >= '0' && c <= '9'`
abbrev pub is_digit : ℕ → Bool
is_digit c = leb 48 c && leb c 57

unfoldable pub digits_of : Bytes → List ℕ
digits_of [] = []
digits_of (c ∷ s) = let rest = digits_of s in if is_digit c then (c - 48) ∷ rest else rest

abbrev pub doubled : ℕ → ℕ
doubled d = if ltb 9 (d * 2) then d * 2 - 9 else d * 2

abbrev pub reverse : List ℕ → List ℕ
reverse [] = []
reverse (x ∷ xs) = reverse xs ++ x ∷ []

-- The loop of `luhnValid`, on the digits from the last to the first
unfoldable pub luhn_sum : Bool → List ℕ → ℕ
luhn_sum dbl [] = 0
luhn_sum dbl (d ∷ ds) = (if dbl then doubled d else d) + luhn_sum (not dbl) ds

unfoldable pub luhn_valid : Bytes → Bool
unfolding digits_of luhn_sum
luhn_valid s =
    let digits = digits_of s in
    if ltb (length digits) 13 || ltb 19 (length digits)
    then false
    else nat_eqb (luhn_sum false (reverse digits) % 10) 0

-- `strings.Split(s, ".")`: the first part, and the others
unfoldable pub split_dots : Bytes → Bytes × List Bytes
split_dots [] = ([], [])
split_dots (c ∷ s) =
    let (part, others) = split_dots s in
    if nat_eqb c 46 then ([], part ∷ others) else (c ∷ part, others)

-- The loop over the bytes of a part: the number it spells, or none at a byte that is no digit
unfoldable pub octet_from : ℕ → Bytes → Option ℕ
octet_from n [] = some n
octet_from n (c ∷ p) =
    let rest = octet_from (n * 10 + (c - 48)) p in if is_digit c then rest else none

unfoldable pub octet_valid : Bytes → Bool
unfolding octet_from
octet_valid p =
    if nat_eqb (length p) 0 || ltb 3 (length p)
    then false
    else elim (octet_from 0 p) [ none ↦ false | some n ↦ leb n 255 ]

unfoldable pub all_octets : List Bytes → Bool
unfolding octet_valid
all_octets [] = true
all_octets (p ∷ ps) = let rest = all_octets ps in if octet_valid p then rest else false

unfoldable pub ipv4_valid : Bytes → Bool
unfolding split_dots all_octets
ipv4_valid s =
    let (part, others) = split_dots s in
    if nat_eqb (length (part ∷ others)) 4 then all_octets (part ∷ others) else false

pub data Category : Type 0 where
  secret pii : Category

pub record Pattern : Type 0 where
  pub label : Bytes
  pub category : Category
  pub re : String
  pub validate : Option (Bytes → Bool)
  pub default_on : Bool

abbrev on_by_default : String → String → Pattern
on_by_default label re = record {
  label = ascii label;
  category = secret;
  re = re;
  validate = none;
  default_on = true;
}

abbrev opt_in : String → Option (Bytes → Bool) → String → Pattern
opt_in label validate re = record {
  label = ascii label;
  category = pii;
  re = re;
  validate = validate;
  default_on = false;
}

unfoldable pub patterns : List Pattern
unfolding luhn_valid ipv4_valid
patterns =
    on_by_default "private_key"
      "(?s)-----BEGIN [A-Z ]*PRIVATE KEY-----.*?-----END [A-Z ]*PRIVATE KEY-----"
    ∷ on_by_default "anthropic_key" "sk-ant-[A-Za-z0-9_\\-]{20,}"
    ∷ on_by_default "openai_key" "sk-(?:proj-)?[A-Za-z0-9_\\-]{20,}"
    ∷ on_by_default "openrouter_key" "sk-or-[A-Za-z0-9_\\-]{20,}"
    ∷ on_by_default "xai_key" "xai-[A-Za-z0-9]{20,}"
    ∷ on_by_default "github_token" "gh[pousr]_[A-Za-z0-9]{36,}"
    ∷ on_by_default "aws_access_key" "A(?:KIA|SIA)[0-9A-Z]{16}"
    ∷ on_by_default "google_api_key" "AIza[0-9A-Za-z_\\-]{35}"
    ∷ on_by_default "slack_token" "xox[baprs]-[0-9A-Za-z\\-]{10,}"
    ∷ on_by_default "stripe_key" "[rs]k_(?:live|test)_[0-9A-Za-z]{16,}"
    ∷ on_by_default "jwt" "eyJ[A-Za-z0-9_\\-]{10,}\\.eyJ[A-Za-z0-9_\\-]{10,}\\.[A-Za-z0-9_\\-]{10,}"
    ∷ on_by_default "bearer_token" "(?i)bearer\\s+[A-Za-z0-9._\\-]{20,}"
    ∷ opt_in "email" none "[A-Za-z0-9._%+\\-]+@[A-Za-z0-9.\\-]+\\.[A-Za-z]{2,}"
    ∷ opt_in "phone" none "\\+?\\d{0,3}[ .\\-]?\\(?\\d{3}\\)?[ .\\-]?\\d{3}[ .\\-]?\\d{4}\\b"
    ∷ opt_in "ssn" none "\\b\\d{3}-\\d{2}-\\d{4}\\b"
    ∷ opt_in "credit_card" (some luhn_valid) "\\b\\d(?:[ \\-]?\\d){12,18}\\b"
    ∷ opt_in "ip_address" (some ipv4_valid) "\\b(?:\\d{1,3}\\.){3}\\d{1,3}\\b"
    ∷ []

-- The labels of the rules, in the order of `patternPriority`
unfoldable pub built_in : List Bytes
unfolding patterns
built_in = map (λ p. p.label) patterns

pub record CustomPattern : Type 0 where
  pub label : Bytes
  pub re : String

-- `enabled`: none is the nil map.
pub record PatternSet : Type 0 where
  pub enabled : Option (Dict Bytes Bool)
  pub custom : List CustomPattern
  pub entropy : Bool

pub record PatternInfo : Type 0 where
  pub label : Bytes
  pub category : Category
  pub default_on : Bool

unfoldable pub builtin_patterns : List PatternInfo
unfolding patterns
builtin_patterns =
    map (λ p. record { label = p.label; category = p.category; default_on = p.default_on }) patterns
    ++ record { label = ascii "high_entropy"; category = secret; default_on = true } ∷ []

unfoldable pub pattern_enabled : PatternSet → Bytes → Bool → Bool
pattern_enabled ps label default = elim ps.enabled [
  | none ↦ default
  | some set ↦ Option.get_or (lookup label set) default
]
