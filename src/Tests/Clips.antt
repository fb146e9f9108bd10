-- ===== src/Tests/Clips.antt =====
-- Runs of the cache of synthesized clips, and of the prices.
use ipsupport_airllm.Base.{
  All, ℕ, ◌+◌, ◌≡◌, ◌≢◌, refl, ap, Bool, true, false, ◌&&◌, not, Option, none, some, List, [], ◌∷◌,
  length, ltb, leb, ◌*◌, if◌then◌else◌, arith,
}
use ipsupport_airllm.Base.Bytes.{Bytes, bytes_equal, ascii}
use ipsupport_airllm.Base.Clock.{second, minute}
use ipsupport_airllm.Base.Ints.{ℤ, pos, is_positive, leqℤ}
use ipsupport_airllm.Tests.Data.{thousandths}
use ipsupport_airllm.Speech.Names.{Key, id, prefixed, fields, id-Collides}
use ipsupport_airllm.Speech.Values.{
  Clip, encode, encode_v1, decode, one_line, OneLine, decode-encode,
}
use ipsupport_airllm.Speech.Cache.{Cache, Access, get, put, hit, no_clip, read_back, get-put}
use ipsupport_airllm.Pricing.{Price, tokens, Row, new, build, replace, rates, validate}
use ipsupport_airllm.Pricing.Installs.{Change, replaced, set_price, changes, replace-changes}
use ipsupport_airllm.Pricing.Prints.{Fits, unit_of}
use ipsupport_airllm.Pricing.Rates.{validate-rates}

abbrev greeting : Key
greeting = record {
  alias = ascii "a";
  provider = ascii "p";
  model = ascii "m";
  voice = ascii "v";
  language = ascii "en";
  format = ascii "wav";
  text = ascii "hi";
}

-- The same bytes, cut elsewhere
abbrev cut_elsewhere : Key
cut_elsewhere = record greeting { provider = ascii "pm"; model = [] }

-- A hash with one digest
abbrev constant : Bytes → Bytes
constant x = ascii "digest"

one_id : id constant greeting ≡ id constant cut_elsewhere
unfolding id
one_id = refl

id-Collides_example :
    (constant (prefixed (fields greeting)) ≡ constant (prefixed (fields cut_elsewhere)))
    × (prefixed (fields greeting) ≢ prefixed (fields cut_elsewhere))
id-Collides_example =
    id-Collides constant 6 (λ x. refl) greeting cut_elsewhere
      (omega arith, (omega arith, (omega arith, (omega arith, (omega arith, (omega arith, tt))))))
      (omega arith, (omega arith, (omega arith, (omega arith, (omega arith, (omega arith, tt))))))
      (λ e. omega (arith, ap (λ k. length k.provider) e)) one_id

abbrev clip : Clip
clip = record {
  audio = 1 ∷ 10 ∷ 2 ∷ [];
  content_type = ascii "audio/wav";
  model = ascii "tts-1";
  label = ascii "two\nlines";
}

type_line : OneLine clip.content_type
type_line = (refl, (refl, (refl, (refl, (refl, (refl, (refl, (refl, (refl, tt)))))))))

model_line : OneLine clip.model
model_line = (refl, (refl, (refl, (refl, (refl, tt)))))

decode-encode_example :
    (decode (encode clip) ≡ some (record clip { label = one_line clip.label }))
    × (decode (encode_v1 clip) ≡ some (record clip { label = [] }))
decode-encode_example = decode-encode clip type_line model_line

abbrev empty : Cache
empty = record { has_redis = true; local = []; remote = []; remote_down_till = 0 }

abbrev up : Access
up = record { answers = true; caller_gone = false }

get-put_example :
    (get constant up greeting
      (second + minute)
      (put constant up greeting clip (2 * minute) second empty).1).0
    ≡ (if ltb (second + minute) (second + 2 * minute)
        then hit (read_back constant true clip)
        else no_clip)
get-put_example =
    get-put constant up greeting clip (2 * minute) second (second + minute) empty (omega arith)
      (omega arith) type_line model_line refl (omega arith) (omega arith)

abbrev low : Price ℕ
low = record {
  input_per_1m = 1250;
  output_per_1m = 10000;
  unit = tokens;
  context_threshold = pos 200000;
  input_per_1m_above = 2500;
  output_per_1m_above = 15000;
}

low_valid : validate low ≡ none
unfolding validate leqℤ ipsupport_airllm.Base.Ints.is_zero
low_valid = refl

validate-rates_example :
    let (per_in, per_out) = rates low 200001 in
    (ltb per_in 0 ≡ false)
    × (ltb per_out 0 ≡ false)
    × ((is_positive (pos 200000) && not (leqℤ (pos 200001) (pos 200000))) ≡ true
        → (leb per_in 0 ≡ false) × (leb per_out 0 ≡ false))
validate-rates_example = validate-rates low 200001 low_valid

abbrev sheet : List (Row ℕ)
sheet = record { provider = ascii "g"; model = ascii "pro"; price = low } ∷ []

-- A digest without collisions: the text itself
abbrev whole : Bytes → Bytes
whole text = text

abbrev same_bits : ℕ → ℕ
same_bits n = n

sheet-Fits : All (Fits same_bits) sheet
unfolding unit_of bytes_equal
sheet-Fits = (
  (
    omega arith,
    omega arith,
    (omega arith, refl),
    omega arith,
    (omega arith, omega arith, omega arith, omega arith),
  ),
  tt,
)

abbrev edits : List (Change ℕ)
edits = replaced sheet ∷ set_price (ascii "g") (ascii "pro") (record low { input_per_1m = 9 }) ∷ []

-- The rows are read, a price is set, and the same rows are read again.
replace-changes_example :
    (replace same_bits whole sheet (changes same_bits whole edits new)).1.prices ≡ build [] sheet
replace-changes_example =
    replace-changes same_bits whole (λ x y e. e) edits sheet sheet-Fits (sheet-Fits, tt)
      ((λ e. e), tt)
