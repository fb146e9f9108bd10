-- ===== src/Speech/Names.antt =====
-- internal/speechcache/speechcache.go, `Key.id`. SHA-256 is a parameter, and so is the text of its digest.
use ipsupport_airllm.Base.{
  ℕ, ◌+◌, ◌/◌, ◌%◌, ◌<◌, ◌≡◌, ◌≢◌, refl, sym, ap, ◌∙◌, List, [], ◌∷◌, ◌++◌, length, length-append,
  arith, drop, All,
}
use ipsupport_airllm.Base.Bytes.{Bytes, ascii}

pub record Key : Type 0 where
  pub alias : Bytes
  pub provider : Bytes
  pub model : Bytes
  pub voice : Bytes
  pub language : Bytes
  pub format : Bytes
  pub text : Bytes

-- `binary.Write(h, binary.BigEndian, uint32(n))`
unfoldable pub big_endian : ℕ → Bytes
big_endian n = (n / 16777216 % 256) ∷ (n / 65536 % 256) ∷ (n / 256 % 256) ∷ (n % 256) ∷ []

unfoldable pub prefixed : List Bytes → Bytes
unfolding big_endian
prefixed [] = []
prefixed (f ∷ fs) = big_endian (length f) ++ (f ++ prefixed fs)

abbrev pub fields : Key → List Bytes
fields k = k.provider ∷ k.model ∷ k.voice ∷ k.language ∷ k.format ∷ k.text ∷ []

unfoldable pub id : (Bytes → Bytes) → Key → Bytes
unfolding prefixed
id hex_sha256 k = ascii "air:tts:" ++ (k.alias ++ (ascii ":" ++ hex_sha256 (prefixed (fields k))))

pub big_endian-injective :
    (m n : ℕ) → m < 4294967296 → n < 4294967296 → big_endian m ≡ big_endian n → m ≡ n
unfolding big_endian
big_endian-injective m n h k e = ground arith

first : Bytes → ℕ
first [] = 0
first (x ∷ xs) = x

-- Two texts that start with parts of one length agree in the parts and in the rest.
pub append-parts :
    (xs ys us vs : Bytes) → length xs ≡ length ys → xs ++ us ≡ ys ++ vs → (xs ≡ ys) × (us ≡ vs)
unfolding first
append-parts [] [] us vs n e = (refl, e)
append-parts [] (y ∷ ys) us vs n e = absurd (omega (arith, n))
append-parts (x ∷ xs) [] us vs n e = absurd (omega (arith, n))
append-parts (x ∷ xs) (y ∷ ys) us vs n e =
    let rest = append-parts xs ys us vs (omega (arith, n)) (ap (drop 1) e) in
    ((λ i. ap first e i ∷ rest.0 i), rest.1)

abbrev Short : Bytes → Type 0
Short f = length f < 4294967296

prefixed-injective :
    (fs gs : List Bytes)
    → length fs ≡ length gs
    → All Short fs
    → All Short gs
    → prefixed fs ≡ prefixed gs
    → fs ≡ gs
unfolding prefixed
prefixed-injective [] [] n h k e = refl
prefixed-injective [] (g ∷ gs) n h k e = absurd (omega (arith, n))
prefixed-injective (f ∷ fs) [] n h k e = absurd (omega (arith, n))
prefixed-injective (f ∷ fs) (g ∷ gs) n h k e =
    let split =
      append-parts (big_endian (length f)) (big_endian (length g)) (f ++ prefixed fs)
        (g ++ prefixed gs) (four f ∙ sym (four g)) e in
    let long = big_endian-injective (length f) (length g) h.0 k.0 split.0 in
    let (same, rest) = append-parts f g (prefixed fs) (prefixed gs) long split.1 in
    λ i. same i ∷ prefixed-injective fs gs (omega (arith, n)) h.1 k.1 rest i
  where
    four : (x : Bytes) → length (big_endian (length x)) ≡ 4
    four x = omega arith

abbrev pub AllShort : Key → Type 0
AllShort k = All Short (fields k)

module _ (sha : Bytes → Bytes) (digest : ℕ) (long : (x : Bytes) → length (sha x) ≡ digest) where
  id-parts :
      (k l : Key)
      → id sha k ≡ id sha l
      → (k.alias ≡ l.alias) × (sha (prefixed (fields k)) ≡ sha (prefixed (fields l)))
  unfolding id
  id-parts k l e =
      let end_k = ascii ":" ++ sha (prefixed (fields k)) in
      let end_l = ascii ":" ++ sha (prefixed (fields l)) in
      let rest : k.alias ++ end_k ≡ l.alias ++ end_l = ap (drop 8) e in
      let total : length k.alias + length end_k ≡ length l.alias + length end_l =
        sym (length-append k.alias end_k) ∙ ap length rest ∙ length-append l.alias end_l in
      let (alias, ends) =
        append-parts k.alias l.alias end_k end_l
          (omega (arith, total, long (prefixed (fields k)), long (prefixed (fields l)))) rest in
      (alias, ap (drop 1) ends)

  fields-Key : (k l : Key) → k.alias ≡ l.alias → fields k ≡ fields l → k ≡ l
  fields-Key k l alias e = λ i. record {
    alias = alias i;
    provider = first_part (e i);
    model = first_part (drop 1 (e i));
    voice = first_part (drop 2 (e i));
    language = first_part (drop 3 (e i));
    format = first_part (drop 4 (e i));
    text = first_part (drop 5 (e i));
  }
    where
      first_part : List Bytes → Bytes
      first_part [] = []
      first_part (f ∷ fs) = f

  -- Different keys have one id only where SHA-256 gives one digest for two different texts: no two keys
  -- share an id by how their fields are cut, when each is shorter than 4 GiB and all digests have one
  -- length.
  pub id-Collides :
      (k l : Key)
      → AllShort k
      → AllShort l
      → k ≢ l
      → id sha k ≡ id sha l
      → (sha (prefixed (fields k)) ≡ sha (prefixed (fields l)))
        × (prefixed (fields k) ≢ prefixed (fields l))
  id-Collides k l short_k short_l differ e =
      let (alias, digests) = id-parts k l e in
      (
        digests,
        λ same. differ (
            fields-Key k l alias
              (prefixed-injective (fields k) (fields l) (omega arith) short_k short_l same)),
      )
