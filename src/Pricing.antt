-- ===== src/Pricing.antt =====
-- internal/pricing/pricing.go: the prices of models, and what a call costs. The database's rows, SHA-256,
-- the bits of a float64, `math.Round` and the conversion to int64 are parameters. A provider's and a
-- model's name hold no NUL, which keeps the two apart in the map's key, so the key is the pair of them.
pub mod Prints
pub mod Installs
pub mod Rates
use ipsupport_airllm.Base.{
  ℕ, ◌+◌, ◌-◌, ◌^◌, ◌/◌, ◌%◌, Bool, true, false, ◌&&◌, ◌||◌, not, Option, none, some, List, [], ◌∷◌,
  ◌++◌, String, string_eq, length, ltb, nat_eqb, if◌then◌else◌, ◌≡◌, Eq, ◌==◌,
}
use ipsupport_airllm.Base.Bytes.{Bytes, ascii, bytes_eq}
use ipsupport_airllm.Speech.Names.{big_endian}
use ipsupport_airllm.Base.Dict.{Dict, lookup, insert}
use ipsupport_airllm.Base.Float.{Float}
use ipsupport_airllm.Base.Ints.{ℤ, pos, negsuc, is_positive, leqℤ, is_zero}

pub data Measure : Type 0 where
  unset tokens audio_second text_char : Measure
  other : Bytes → Measure

pub record Price (F : Type 0) : Type 0 where
  pub input_per_1m : F
  pub output_per_1m : F
  pub unit : Measure
  pub context_threshold : ℤ
  pub input_per_1m_above : F
  pub output_per_1m_above : F

pub record Key : Type 0 where
  pub provider : Bytes
  pub model : Bytes

unfoldable pub key_equal : Key → Key → Bool
key_equal a b = (a.provider == b.provider) && (a.model == b.model)

pub record Row (F : Type 0) : Type 0 where
  pub provider : Bytes
  pub model : Bytes
  pub price : Price F

-- Why a row is not a price
pub data Invalid : Type 0 where
  unknown_unit negative_rate negative_threshold not_tokens rate_missing : Invalid

abbrev pub is_known : Measure → Bool
is_known (other name) = false
is_known _ = true

abbrev pub counts_tokens : Measure → Bool
counts_tokens unset = true
counts_tokens tokens = true
counts_tokens _ = false

-- `prices`, and the fingerprint of the rows last installed: none is the zero array.
pub record Table (F : Type 0) : Type 0 where
  pub prices : List (Key × Price F)
  pub fp : Option Bytes

unfoldable pub find : {F : Type 0} → Key → List (Key × Price F) → Option (Price F)
unfolding key_equal
find key [] = none
find key ((k, p) ∷ ps) = let later = find key ps in if key_equal key k then some p else later

unfoldable pub put : {F : Type 0} → Key → Price F → List (Key × Price F) → List (Key × Price F)
unfolding key_equal
put key price [] = (key, price) ∷ []
put key price ((k, p) ∷ ps) =
    let others = put key price ps in if key_equal key k then (key, price) ∷ ps else (k, p) ∷ others

module _ {F : Type 0} ⦃fl : Float F⦄ where
  unfoldable pub rates : Price F → ℕ → F × F
  rates p prompt_tokens =
      if is_positive p.context_threshold && not (leqℤ (pos prompt_tokens) p.context_threshold)
      then (p.input_per_1m_above, p.output_per_1m_above)
      else (p.input_per_1m, p.output_per_1m)

  unfoldable pub validate : Price F → Option Invalid
  validate p =
      let zero_rate = fl.of_int 0 in
      if not (is_known p.unit)
      then some unknown_unit
      else if fl.lt p.input_per_1m zero_rate
          || fl.lt p.output_per_1m zero_rate
          || fl.lt p.input_per_1m_above zero_rate
          || fl.lt p.output_per_1m_above zero_rate
      then some negative_rate
      else if not (leqℤ (pos 0) p.context_threshold)
      then some negative_threshold
      else if is_zero p.context_threshold
      then none
      else if not (counts_tokens p.unit)
      then some not_tokens
      else if fl.le p.input_per_1m_above zero_rate || fl.le p.output_per_1m_above zero_rate
      then some rate_missing
      else none

  -- The lookup: the provider's own row, or the one of no provider
  unfoldable pub price_of : Table F → Bytes → Bytes → Option (Price F)
  unfolding find
  price_of t provider model = elim (find (record { provider = provider; model = model }) t.prices) [
    | some p ↦ some p
    | none ↦ find (record { provider = []; model = model }) t.prices
  ]

  abbrev pub million : F
  million = fl.of_int 1_000_000

  module _ (round : F → ℤ) where
    -- `round` is the conversion to int64 after `math.Round`.
    unfoldable pub cost_micro_usd : Table F → Bytes → Bytes → ℕ → ℕ → ℤ
    unfolding price_of rates
    cost_micro_usd t provider model prompt completion = elim (price_of t provider model) [
      | none ↦ pos 0
      | some p ↦
          let (per_in, per_out) = rates p prompt in
          let usd =
            fl.add (fl.mul (fl.div (fl.of_int prompt) million) per_in)
              (fl.mul (fl.div (fl.of_int completion) million) per_out) in
          round (fl.mul usd million)
    ]

    unfoldable pub audio_cost_micro_usd : Table F → Bytes → Bytes → F → ℤ
    unfolding price_of
    audio_cost_micro_usd t provider model seconds = elim (price_of t provider model) [
      | none ↦ pos 0
      | some p ↦ round (fl.mul (fl.mul (fl.div seconds million) p.input_per_1m) million)
    ]

    unfoldable pub tts_cost_micro_usd : Table F → Bytes → Bytes → ℕ → ℤ
    unfolding price_of
    tts_cost_micro_usd t provider model chars = elim (price_of t provider model) [
      | none ↦ pos 0
      | some p ↦ round (fl.mul (fl.mul (fl.div (fl.of_int chars) million) p.input_per_1m) million)
    ]

  unfoldable pub rate : Table F → Bytes → Bytes → Option F
  unfolding price_of
  rate t provider model = elim (price_of t provider model) [
    | none ↦ none
    | some p ↦ some (fl.add p.input_per_1m p.output_per_1m)
  ]

abbrev pub new : {F : Type 0} → Table F
new = record { prices = []; fp = none }

-- The loop of `Replace`
unfoldable pub build : {F : Type 0} → List (Key × Price F) → List (Row F) → List (Key × Price F)
unfolding put
build prices [] = prices
build prices (r ∷ rs) =
    build (put (record { provider = r.provider; model = r.model }) r.price prices) rs

-- `Price.Unit`
abbrev pub unit_name : Measure → Bytes
unit_name unset = []
unit_name tokens = ascii "tokens"
unit_name audio_second = ascii "audio_second"
unit_name text_char = ascii "text_char"
unit_name (other name) = name

-- `uint64(v)`
unfoldable pub uint64_of : ℤ → ℕ
uint64_of (pos n) = n
uint64_of (negsuc n) = 2 ^ 64 - 1 - n

-- `num` and `str` of `fingerprint`: what they write, and what is written after it
unfoldable pub num : ℕ → Bytes → Bytes
unfolding big_endian
num n rest = big_endian (n / 4294967296) ++ (big_endian (n % 4294967296) ++ rest)

unfoldable pub str : Bytes → Bytes → Bytes
unfolding num
str s rest = num (length s) (s ++ rest)

module _ {F : Type 0} (bits : F → ℕ) where
  unfoldable pub write_row : Row F → Bytes → Bytes
  unfolding str uint64_of
  write_row r rest = str r.provider (
      str r.model (
        str (unit_name r.price.unit) (
          num (bits r.price.input_per_1m) (
            num (bits r.price.output_per_1m) (
              num (uint64_of r.price.context_threshold) (
                num (bits r.price.input_per_1m_above)
                  (num (bits r.price.output_per_1m_above) rest)))))))

  -- The loop of `fingerprint`
  unfoldable pub written : List (Row F) → Bytes
  unfolding write_row
  written [] = []
  written (r ∷ rs) = write_row r (written rs)

  unfoldable pub fingerprint : (Bytes → Bytes) → List (Row F) → Bytes
  unfolding written
  fingerprint sha256 rows = sha256 (written rows)

-- `sha256` and `bits` are `sha256.Sum256` and `math.Float64bits`.
unfoldable pub replace :
    {F : Type 0} → (F → ℕ) → (Bytes → Bytes) → List (Row F) → Table F → Bool × Table F
unfolding build fingerprint
replace {F} bits sha256 rows t =
    let fp = fingerprint bits sha256 rows in
    let installed : Table F = record { prices = build [] rows; fp = some fp } in
    elim t.fp [
      | none ↦ (true, installed)
      | some old ↦ if fp == old then (false, t) else (true, installed)
    ]

unfoldable pub set : {F : Type 0} → Bytes → Bytes → Price F → Table F → Table F
unfolding put
set provider model price t = record {
  prices = put (record { provider = provider; model = model }) price t.prices;
  fp = none;
}
