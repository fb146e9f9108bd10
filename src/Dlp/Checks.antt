-- ===== src/Dlp/Checks.antt =====
-- What the check of a credit card's number catches.
use ipsupport_airllm.Base.{
  ℕ, ◌-◌, ◌%◌, ◌≤◌, ◌≡◌, ◌≢◌, inl, inr, Bool-cases, refl, sym, ap, ◌∙◌, Bool, true, false, not,
  List, [], ◌∷◌, ◌++◌, append_assoc, arith,
}
use ipsupport_airllm.Base.Bytes.{Bytes}
use ipsupport_airllm.Dlp.Patterns.{digits_of, is_digit, reverse, luhn_sum, luhn_valid}

digits_of-append : (s t : Bytes) → digits_of (s ++ t) ≡ digits_of s ++ digits_of t
unfolding digits_of
digits_of-append [] t = refl
digits_of-append (c ∷ s) t = ground (arith, digits_of-append s t)

digits_of-middle :
    (s t : Bytes) (c : ℕ)
    → is_digit c ≡ true
    → digits_of (s ++ c ∷ t) ≡ digits_of s ++ (c - 48) ∷ digits_of t
unfolding digits_of
digits_of-middle s t c h = digits_of-append s (c ∷ t) ∙ rw h refl

reverse-middle : (xs ys : List ℕ) (d : ℕ) → reverse (xs ++ d ∷ ys) ≡ reverse ys ++ d ∷ reverse xs
reverse-middle [] ys d = refl
reverse-middle (x ∷ xs) ys d =
    ap (λ r. r ++ x ∷ []) (reverse-middle xs ys d)
    ∙ append_assoc (reverse ys) (d ∷ reverse xs) (x ∷ [])

-- One digit decides the sum, when the others are known.
luhn_sum-decides :
    (dbl : Bool) (us vs : List ℕ) (d e : ℕ)
    → d ≤ 9
    → e ≤ 9
    → luhn_sum dbl (us ++ d ∷ vs) % 10 ≡ luhn_sum dbl (us ++ e ∷ vs) % 10
    → d ≡ e
unfolding luhn_sum
luhn_sum-decides dbl [] vs d e h k same = ground arith
luhn_sum-decides dbl (u ∷ us) vs d e h k same =
    luhn_sum-decides (not dbl) us vs d e h k (omega (arith, same))

luhn_valid-digits :
    (s : Bytes) → luhn_valid s ≡ true → luhn_sum false (reverse (digits_of s)) % 10 ≡ 0
unfolding luhn_valid
luhn_valid-digits s h = ground arith

luhn_valid-middle :
    (s t : Bytes) (c : ℕ)
    → is_digit c ≡ true
    → luhn_valid (s ++ c ∷ t) ≡ true
    → luhn_sum false (reverse (digits_of t) ++ (c - 48) ∷ reverse (digits_of s)) % 10 ≡ 0
luhn_valid-middle s t c h valid =
    ap (λ ds. luhn_sum false ds % 10)
      (sym (
        ap reverse (digits_of-middle s t c h)
        ∙ reverse-middle (digits_of s) (digits_of t) (c - 48)))
    ∙ luhn_valid-digits (s ++ c ∷ t) valid

-- A number that passes the check does not pass it any more once one of its digits is changed.
pub luhn_valid-changed :
    (s t : Bytes) (c c' : ℕ)
    → is_digit c ≡ true
    → is_digit c' ≡ true
    → c ≢ c'
    → luhn_valid (s ++ c ∷ t) ≡ true
    → luhn_valid (s ++ c' ∷ t) ≡ false
luhn_valid-changed s t c c' h h' differ valid = elim (Bool-cases (luhn_valid (s ++ c' ∷ t))) [
  | inr refused ↦ refused
  | inl passed ↦
      let same : c - 48 ≡ c' - 48 =
        luhn_sum-decides false (reverse (digits_of t)) (reverse (digits_of s)) (c - 48) (c' - 48)
          (ground arith) (ground arith)
          (luhn_valid-middle s t c h valid ∙ sym (luhn_valid-middle s t c' h' passed)) in
      absurd (differ (ground arith))
]
