-- ===== src/Pricing/Prints.antt =====
-- What `fingerprint` writes of rows tells them apart.
use ipsupport_airllm.Base.{
  ℕ, ◌^◌, ◌/◌, ◌%◌, ◌<◌, ◌≡◌, ◌≢◌, refl, sym, ap, ◌∙◌, List, [], ◌∷◌, ◌++◌, length, All, arith,
  if◌then◌else◌, ◌==◌,
}
use ipsupport_airllm.Base.Bytes.{Bytes, ascii, bytes_eq}
use ipsupport_airllm.Base.Ints.{ℤ, pos, negsuc}
use ipsupport_airllm.Speech.Names.{big_endian, big_endian-injective, append-parts}
use ipsupport_airllm.Pricing.{
  Measure, unset, tokens, audio_second, text_char, other, Row, unit_name, uint64_of, num, str,
  write_row, written,
}

-- The unit of that name
unfoldable pub unit_of : Bytes → Measure
unit_of name =
    if name == []
    then unset
    else if name == ascii "tokens"
    then tokens
    else if name == ascii "audio_second"
    then audio_second
    else if name == ascii "text_char"
    then text_char
    else other name

-- The unit is the one of its name: another's name is none of the known ones.
abbrev pub IsRead : Measure → Type 0
IsRead unit = unit_of (unit_name unit) ≡ unit

abbrev pub Int64 : ℤ → Type 0
Int64 (pos n) = n < 2 ^ 63
Int64 (negsuc n) = n < 2 ^ 63

abbrev pub Short : Bytes → Type 0
Short s = length s < 2 ^ 64

num-parts :
    (m n : ℕ) (us vs : Bytes) → m < 2 ^ 64 → n < 2 ^ 64 → num m us ≡ num n vs → (m ≡ n) × (us ≡ vs)
unfolding num big_endian
num-parts m n us vs h k e =
    let (high, rest) =
      append-parts (big_endian (m / 4294967296)) (big_endian (n / 4294967296))
        (big_endian (m % 4294967296) ++ us) (big_endian (n % 4294967296) ++ vs)
        (four (m / 4294967296) ∙ sym (four (n / 4294967296))) e in
    let (low, after) =
      append-parts (big_endian (m % 4294967296)) (big_endian (n % 4294967296)) us vs
        (four (m % 4294967296) ∙ sym (four (n % 4294967296))) rest in
    let highs =
      big_endian-injective (m / 4294967296) (n / 4294967296) (omega (arith, h)) (omega (arith, k))
        high in
    let lows =
      big_endian-injective (m % 4294967296) (n % 4294967296) (omega arith) (omega arith) low in
    (omega (arith, highs, lows), after)
  where
    four : (x : ℕ) → length (big_endian x) ≡ 4
    four x = refl

str-parts : (s t us vs : Bytes) → Short s → Short t → str s us ≡ str t vs → (s ≡ t) × (us ≡ vs)
unfolding str
str-parts s t us vs h k e =
    let (long, rest) = num-parts (length s) (length t) (s ++ us) (t ++ vs) h k e in
    append-parts s t us vs long rest

uint64_of-injective : (a b : ℤ) → Int64 a → Int64 b → uint64_of a ≡ uint64_of b → a ≡ b
unfolding uint64_of
uint64_of-injective (pos m) (pos n) h k e = ap pos e
uint64_of-injective (pos m) (negsuc n) h k e = absurd (omega (arith, h, k, e))
uint64_of-injective (negsuc m) (pos n) h k e = absurd (omega (arith, h, k, e))
uint64_of-injective (negsuc m) (negsuc n) h k e = ap negsuc (omega (arith, h, k, e))

uint64_of-small : (a : ℤ) → Int64 a → uint64_of a < 2 ^ 64
unfolding uint64_of
uint64_of-small (pos n) h = omega (arith, h)
uint64_of-small (negsuc n) h = omega (arith, h)

module _ {F : Type 0} (bits : F → ℕ) where
  row_written : (r : Row F) (rest : Bytes) → write_row bits r rest ≢ []
  unfolding write_row str num big_endian
  row_written r rest e = ground arith

  -- A row as the source holds it: strings and numbers of the machine's sizes
  abbrev pub Fits : Row F → Type 0
  Fits r =
      Short r.provider
      × Short r.model
      × (Short (unit_name r.price.unit) × IsRead r.price.unit)
      × Int64 r.price.context_threshold
      × ((bits r.price.input_per_1m < 2 ^ 64)
          × (bits r.price.output_per_1m < 2 ^ 64)
          × (bits r.price.input_per_1m_above < 2 ^ 64)
          × (bits r.price.output_per_1m_above < 2 ^ 64))

  module _ (tells : (x y : F) → bits x ≡ bits y → x ≡ y) where
    row-parts :
        (r q : Row F) (us vs : Bytes)
        → Fits r
        → Fits q
        → write_row bits r us ≡ write_row bits q vs
        → (r ≡ q) × (us ≡ vs)
    unfolding write_row
    row-parts r q us vs (rp, rm, ru, rt, rb) (qp, qm, qu, qt, qb) e =
        let (provider, e₁) = str-parts r.provider q.provider _ _ rp qp e in
        let (model, e₂) = str-parts r.model q.model _ _ rm qm e₁ in
        let (unit, e₃) =
          str-parts (unit_name r.price.unit) (unit_name q.price.unit) _ _ ru.0 qu.0 e₂ in
        let (a, e₄) = num-parts _ _ _ _ rb.0 qb.0 e₃ in
        let (b, e₅) = num-parts _ _ _ _ rb.1 qb.1 e₄ in
        let (c, e₆) =
          num-parts _ _ _ _ (uint64_of-small r.price.context_threshold rt)
            (uint64_of-small q.price.context_threshold qt) e₅ in
        let (d, e₇) = num-parts _ _ _ _ rb.2 qb.2 e₆ in
        let (f, e₈) = num-parts _ _ _ _ rb.3 qb.3 e₇ in
        let units : r.price.unit ≡ q.price.unit = sym ru.1 ∙ ap unit_of unit ∙ qu.1 in
        let prices : r.price ≡ q.price = λ i. record {
          input_per_1m = tells r.price.input_per_1m q.price.input_per_1m a i;
          output_per_1m = tells r.price.output_per_1m q.price.output_per_1m b i;
          unit = units i;
          context_threshold =
              uint64_of-injective r.price.context_threshold q.price.context_threshold rt qt c i;
          input_per_1m_above = tells r.price.input_per_1m_above q.price.input_per_1m_above d i;
          output_per_1m_above = tells r.price.output_per_1m_above q.price.output_per_1m_above f i;
        } in
        ((λ i. record { provider = provider i; model = model i; price = prices i }), e₈)

    pub written-injective :
        (rs qs : List (Row F))
        → All Fits rs
        → All Fits qs
        → written bits rs ≡ written bits qs
        → rs ≡ qs
    unfolding written
    written-injective [] [] h k e = refl
    written-injective [] (q ∷ qs) h k e = absurd (row_written q (written bits qs) (sym e))
    written-injective (r ∷ rs) [] h k e = absurd (row_written r (written bits rs) e)
    written-injective (r ∷ rs) (q ∷ qs) h k e =
        let (same, rest) = row-parts r q (written bits rs) (written bits qs) h.0 k.0 e in
        λ i. same i ∷ written-injective rs qs h.1 k.1 rest i
