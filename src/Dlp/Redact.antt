-- ===== src/Dlp/Redact.antt =====
-- What `Redact` writes: nothing that depends on what stands in a span.
use ipsupport_airllm.Base.{
  ℕ, ◌+◌, ◌-◌, ◌≤◌, ◌≡◌, refl, ap, ◌∙◌, inl, inr, Bool, true, false, ◌&&◌, ◌||◌, List, [], ◌∷◌,
  ◌++◌, length, length-append, take, drop, map, ltb, if◌then◌else◌, arith, Bool-cases, zero, suc,
  ◌==◌,
}
use ipsupport_airllm.Base.Bytes.{Bytes, slice, bytes_eq}
use ipsupport_airllm.Dlp.Types.{
  Finding, Unicode, marker, is_blank, adjacent, coalesce_from, coalesce_adjacent, redact_from,
  redact,
}

-- A secret with the text before it
pub record Part : Type 0 where
  pub gap : Bytes
  pub label : Bytes
  pub secret : Bytes

-- The text that the parts make up, with what follows the last secret
abbrev pub assemble : List Part → Bytes → Bytes
assemble [] tail = tail
assemble (p ∷ ps) tail = p.gap ++ (p.secret ++ assemble ps tail)

-- The findings for the secrets, the text of the parts starting at a position
abbrev pub spans : ℕ → List Part → List Finding
spans at [] = []
spans at (p ∷ ps) =
    let start = at + length p.gap in
    let end = start + length p.secret in
    record { label = p.label; start = start; end = end } ∷ spans end ps

module _ {A : Type 0} where
  take-length : (xs ys : List A) → take (length xs) (xs ++ ys) ≡ xs
  take-length [] ys = refl
  take-length (x ∷ xs) ys = ap (◌∷◌ x) (take-length xs ys)

  drop-length : (xs ys : List A) → drop (length xs) (xs ++ ys) ≡ ys
  drop-length [] ys = refl
  drop-length (x ∷ xs) ys = drop-length xs ys

  drop-drop : (m n : ℕ) (xs : List A) → drop (m + n) xs ≡ drop n (drop m xs)
  drop-drop zero n xs = let e : zero + n ≡ n = omega arith in rw e refl
  drop-drop (suc m) n [] = let e : suc m + n ≡ suc (m + n) = omega arith in rw e (nothing n)
    where
      nothing : (n : ℕ) → ◌≡◌ {A = List A} [] (drop n [])
      nothing zero = refl
      nothing (suc n) = refl
  drop-drop (suc m) n (x ∷ xs) =
      let e : suc m + n ≡ suc (m + n) = omega arith in rw e (drop-drop m n xs)

  length-drop : (n : ℕ) (xs : List A) → n ≤ length xs → length xs ≡ n + length (drop n xs)
  length-drop zero xs h = omega arith
  length-drop (suc n) [] h = omega arith
  length-drop (suc n) (x ∷ xs) h = omega (arith, length-drop n xs (omega arith))

module _ (unicode : Unicode) where
  abbrev hidden : Bytes → Bytes → Bytes → Bool
  hidden last label gap = (last == label) && is_blank unicode gap

  -- What follows a marker in the output: the gaps and a marker for each secret, but not when the label
  -- is that of the last marker and only blanks stand between.
  abbrev pub after_marker : Bytes → List (Bytes × Bytes) → Bytes → Bytes
  after_marker last [] tail = tail
  after_marker last ((gap, label) ∷ rest) tail =
      let skipped = after_marker last rest tail in
      let marked = after_marker label rest tail in
      if hidden last label gap then skipped else gap ++ marker label ++ marked

  abbrev pub expected : List (Bytes × Bytes) → Bytes → Bytes
  expected [] tail = tail
  expected ((gap, label) ∷ rest) tail = gap ++ marker label ++ after_marker label rest tail

  abbrev pub public_parts : List Part → List (Bytes × Bytes)
  public_parts ps = map (λ p. (p.gap, p.label)) ps

  -- The last finding, stretched over the one that goes on with it
  stretched :
      (prev : Finding) (end : ℕ)
      → prev.end ≤ end
      → (if ltb prev.end end then record prev { end = end } else prev) ≡ record prev { end = end }
  stretched prev end h = elim (Bool-cases (ltb prev.end end)) [
    | inl longer ↦ rw longer refl
    | inr same ↦ let e : prev.end ≡ end = ground arith in rw same (λ i. record prev { end = e i })
  ]

  redact_from-kept :
      (s : Bytes) (prev : ℕ) (f : Finding) (fs : List Finding)
      → prev ≤ f.start
      → f.start ≤ f.end
      → f.end ≤ length s
      → redact_from unicode s prev (f ∷ fs)
        ≡ slice s prev f.start ++ marker f.label ++ redact_from unicode s f.end fs
  unfolding redact_from
  redact_from-kept s prev f fs h k l =
      let inside : (ltb f.start prev || ltb (length s) f.start || ltb (length s) f.end) ≡ false =
        ground arith in
      rw (inside, redact_from) refl

  coalesce_from-hidden :
      (s : Bytes) (prev f : Finding) (fs : List Finding)
      → adjacent unicode s prev f ≡ true
      → prev.end ≤ f.end
      → coalesce_from unicode s prev (f ∷ fs)
        ≡ coalesce_from unicode s (record prev { end = f.end }) fs
  unfolding coalesce_from
  coalesce_from-hidden s prev f fs hid h = rw (hid, stretched prev f.end h, coalesce_from) refl

  coalesce_from-shown :
      (s : Bytes) (prev f : Finding) (fs : List Finding)
      → adjacent unicode s prev f ≡ false
      → coalesce_from unicode s prev (f ∷ fs) ≡ prev ∷ coalesce_from unicode s f fs
  unfolding coalesce_from
  coalesce_from-shown s prev f fs shown = rw (shown, coalesce_from) refl

  -- Where a text goes on with a gap and a secret, these are its slices.
  part-slices :
      (s : Bytes) (end : ℕ) (gap secret rest : Bytes)
      → end ≤ length s
      → drop end s ≡ gap ++ (secret ++ rest)
      → (slice s end (end + length gap) ≡ gap)
        × (drop (end + length gap + length secret) s ≡ rest)
        × (end + length gap + length secret ≤ length s)
  part-slices s end gap secret rest l e =
      let n : end + length gap - end ≡ length gap = omega arith in
      let long : length (drop end s) ≡ length gap + (length secret + length rest) = rw e (
        length-append gap (secret ++ rest)
        ∙ ap (λ m. length gap + m) (length-append secret rest)) in
      (
        rw (n, e) (take-length gap (secret ++ rest)),
        drop-drop (end + length gap) (length secret) s
            ∙ ap (drop (length secret)) (
                drop-drop end (length gap) s
                ∙ ap (drop (length gap)) e
                ∙ drop-length gap (secret ++ rest))
            ∙ drop-length secret rest,
        omega (arith, length-drop end s l, long),
      )

  -- The rest of the text after the finding before, in parts
  coalesce_from-after :
      (s : Bytes) (prev : ℕ) (label : Bytes) (start end : ℕ) (ps : List Part) (tail : Bytes)
      → prev ≤ start
      → start ≤ end
      → end ≤ length s
      → drop end s ≡ assemble ps tail
      → redact_from unicode s prev (
          coalesce_from unicode s
            (record { label = label; start = start; end = end })
            (spans end ps))
        ≡ slice s prev start ++ marker label ++ after_marker label (public_parts ps) tail
  unfolding coalesce_from redact_from
  coalesce_from-after s prev label start end [] tail h k l e =
      redact_from-kept s prev _ [] h k l ∙ ap (λ r. slice s prev start ++ marker label ++ r) e
  coalesce_from-after s prev label start end (p ∷ ps) tail h k l e =
      let f : Finding = record {
        label = p.label;
        start = end + length p.gap;
        end = end + length p.gap + length p.secret;
      } in
      let cur : Finding = record { label = label; start = start; end = end } in
      let (gap, rest, inside) = part-slices s end p.gap p.secret (assemble ps tail) l e in
      let same : adjacent unicode s cur f ≡ hidden label p.label p.gap =
        rw (adjacent, gap) (ground arith) in
      elim (Bool-cases (hidden label p.label p.gap)) [
        | inl hid ↦ rw hid (
            ap (redact_from unicode s prev)
              (coalesce_from-hidden s cur f (spans f.end ps) (same ∙ hid) (omega arith))
            ∙ coalesce_from-after s prev label start f.end ps tail h (omega arith) inside rest)
        | inr shown ↦ rw shown (
            ap (redact_from unicode s prev)
              (coalesce_from-shown s cur f (spans f.end ps) (same ∙ shown))
            ∙ redact_from-kept s prev cur _ h k l
            ∙ ap (λ r. slice s prev start ++ marker label ++ r)
                (coalesce_from-after s end p.label f.start f.end ps tail (omega arith) (omega arith)
                    inside rest
                  ∙ ap (λ g. g ++ marker p.label ++ after_marker p.label (public_parts ps) tail)
                      gap))
      ]

  -- The text that `Redact` writes when the findings are the places of the parts' secrets is made of the
  -- gaps, the labels and the tail, and of nothing that stands in a secret: one marker for each secret, but
  -- one for a run of secrets of the same label with only blanks between.
  pub redact-expected :
      (ps : List Part) (tail : Bytes)
      → redact unicode (assemble ps tail) (spans 0 ps) ≡ expected (public_parts ps) tail
  unfolding redact coalesce_adjacent
  redact-expected [] tail = refl
  redact-expected (p ∷ ps) tail =
      let s = assemble (p ∷ ps) tail in
      let (gap, rest, inside) =
        part-slices s 0 p.gap p.secret (assemble ps tail) (omega arith) refl in
      coalesce_from-after s 0 p.label (0 + length p.gap) (0 + length p.gap + length p.secret) ps
        tail (omega arith) (omega arith) inside rest
      ∙ ap (λ g. g ++ marker p.label ++ after_marker p.label (public_parts ps) tail) gap
