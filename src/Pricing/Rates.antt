-- ===== src/Pricing/Rates.antt =====
-- What a valid price asks of a prompt.
use ipsupport_airllm.Base.{ℕ, ◌≡◌, true, false, ◌&&◌, not, none, arith}
use ipsupport_airllm.Base.Float.{Float}
use ipsupport_airllm.Base.Ints.{ℤ, pos, negsuc, is_positive, is_zero, leqℤ}
use ipsupport_airllm.Pricing.{Price, rates, validate}

module _ {F : Type 0} ⦃fl : Float F⦄ where
  -- No valid price asks a negative rate, and one whose threshold a prompt is above asks a rate for input
  -- and one for output that are more than nothing: a row that lacks one of the two is not valid.
  pub validate-rates :
      (p : Price F) (prompt : ℕ)
      → validate p ≡ none
      → let (per_in, per_out) = rates p prompt in
        (fl.lt per_in (fl.of_int 0) ≡ false)
        × (fl.lt per_out (fl.of_int 0) ≡ false)
        × ((is_positive p.context_threshold && not (leqℤ (pos prompt) p.context_threshold)) ≡ true
            → (fl.le per_in (fl.of_int 0) ≡ false) × (fl.le per_out (fl.of_int 0) ≡ false))
  unfolding validate rates is_zero is_positive leqℤ
  validate-rates p prompt valid = by_threshold p.context_threshold valid
    where
      by_threshold :
          (z : ℤ)
          → validate (record p { context_threshold = z }) ≡ none
          → let (per_in, per_out) = rates (record p { context_threshold = z }) prompt in
            (fl.lt per_in (fl.of_int 0) ≡ false)
            × (fl.lt per_out (fl.of_int 0) ≡ false)
            × ((is_positive z && not (leqℤ (pos prompt) z)) ≡ true
                → (fl.le per_in (fl.of_int 0) ≡ false) × (fl.le per_out (fl.of_int 0) ≡ false))
      by_threshold (pos n) h = ground arith
      by_threshold (negsuc n) h = ground arith
