-- ===== src/Speech/Values.antt =====
-- internal/speechcache/speechcache.go, `encode` and `decode`: the stored bytes of a clip.
use ipsupport_airllm.Base.{
  ℕ, zero, suc, ◌≡◌, refl, ap, ◌∙◌, false, Option, none, some, List, [], ◌∷◌, ◌++◌, map, All,
  if◌then◌else◌, nat_eqb, ◌==◌, arith,
}
use ipsupport_airllm.Base.Bytes.{Bytes, ascii, bytes_eq, bytes_equal}

pub record Clip : Type 0 where
  pub audio : Bytes
  pub content_type : Bytes
  pub model : Bytes
  pub label : Bytes

abbrev pub newline : ℕ
newline = 10

-- `strings.ReplaceAll(s, "\n", " ")`
unfoldable pub one_line : Bytes → Bytes
one_line s = map (λ c. if nat_eqb c newline then 32 else c) s

unfoldable pub encode : Clip → Bytes
unfolding one_line
encode c =
    ascii "v2"
    ++ (newline
        ∷ (c.content_type
            ++ (newline ∷ (c.model ++ (newline ∷ (one_line c.label ++ (newline ∷ c.audio)))))))

-- `bytes.Cut(raw, "\n")`: what stands before the first line break, and after it if there is one
unfoldable pub cut : Bytes → Bytes × Option Bytes
cut [] = ([], none)
cut (c ∷ s) =
    let (before, after) = cut s in if nat_eqb c newline then ([], some s) else (c ∷ before, after)

abbrev pub with_rest : (Bytes → List Bytes) → Bytes × Option Bytes → List Bytes
with_rest split (line, none) = line ∷ []
with_rest split (line, some rest) = line ∷ split rest

-- `bytes.SplitN(s, "\n", n)`, for a positive n
unfoldable pub split_n : ℕ → Bytes → List Bytes
unfolding cut
split_n zero s = []
split_n (suc zero) s = s ∷ []
split_n (suc (suc n)) s = with_rest (split_n (suc n)) (cut s)

abbrev pub rest_of : Option Bytes → Bytes
rest_of none = []
rest_of (some rest) = rest

abbrev pub read_v1 : List Bytes → Option Clip
read_v1 (content_type ∷ model ∷ audio ∷ []) =
    some (record { audio = audio; content_type = content_type; model = model; label = [] })
read_v1 _ = none

abbrev pub read_v2 : List Bytes → Option Clip
read_v2 (content_type ∷ model ∷ label ∷ audio ∷ []) =
    some (record { audio = audio; content_type = content_type; model = model; label = label })
read_v2 _ = none

unfoldable pub decode : Bytes → Option Clip
unfolding cut split_n bytes_equal
decode raw =
    let (version, rest) = cut raw in
    if version == ascii "v1"
    then read_v1 (split_n 3 (rest_of rest))
    else if version == ascii "v2"
    then read_v2 (split_n 4 (rest_of rest))
    else none

-- No line break
abbrev pub OneLine : Bytes → Type 0
OneLine s = All (λ c. nat_eqb c newline ≡ false) s

cut-line : (s rest : Bytes) → OneLine s → cut (s ++ (newline ∷ rest)) ≡ (s, some rest)
unfolding cut
cut-line [] rest h = refl
cut-line (c ∷ s) rest h = rw (h.0, cut-line s rest h.1) refl

split_n-line :
    (n : ℕ) (s rest : Bytes)
    → OneLine s
    → split_n (suc (suc n)) (s ++ (newline ∷ rest)) ≡ s ∷ split_n (suc n) rest
unfolding split_n
split_n-line n s rest h = ap (with_rest (split_n (suc n))) (cut-line s rest h)

one_line-OneLine : (s : Bytes) → OneLine (one_line s)
unfolding one_line
one_line-OneLine [] = tt
one_line-OneLine (c ∷ s) = (ground arith, one_line-OneLine s)

abbrev pub encode_v1 : Clip → Bytes
encode_v1 c =
    ascii "v1" ++ (newline ∷ (c.content_type ++ (newline ∷ (c.model ++ (newline ∷ c.audio)))))

split_four :
    (a b c d : Bytes)
    → OneLine a
    → OneLine b
    → OneLine c
    → split_n 4 (a ++ (newline ∷ (b ++ (newline ∷ (c ++ (newline ∷ d)))))) ≡ a ∷ b ∷ c ∷ d ∷ []
unfolding split_n
split_four a b c d ha hb hc =
    split_n-line 2 a _ ha
    ∙ ap (λ r. a ∷ r) (split_n-line 1 b _ hb ∙ ap (λ r. b ∷ r) (split_n-line 0 c d hc))

split_three :
    (a b c : Bytes)
    → OneLine a
    → OneLine b
    → split_n 3 (a ++ (newline ∷ (b ++ (newline ∷ c)))) ≡ a ∷ b ∷ c ∷ []
unfolding split_n
split_three a b c ha hb = split_n-line 1 a _ ha ∙ ap (λ r. a ∷ r) (split_n-line 0 b c hb)

-- A stored clip reads back as it was, but for line breaks in its label, which are blanks, and what the
-- release before stored, which has no label, reads back without one: for a content type and a model of
-- one line, whatever bytes the audio has.
pub decode-encode :
    (c : Clip)
    → OneLine c.content_type
    → OneLine c.model
    → (decode (encode c) ≡ some (record c { label = one_line c.label }))
      × (decode (encode_v1 c) ≡ some (record c { label = [] }))
unfolding decode encode
decode-encode c type model = (
  ap read_v2 (
      split_four c.content_type c.model (one_line c.label) c.audio type model
        (one_line-OneLine c.label)),
  ap read_v1 (split_three c.content_type c.model c.audio type model),
)
