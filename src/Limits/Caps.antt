-- ===== src/Limits/Caps.antt =====
-- What `Check` decides.
use ipsupport_airllm.Base.{◌≡◌, ◌⊎◌, true, false, Option, none, some, All, Some, string_eq}
use ipsupport_airllm.Base.Clock.{Time}
use ipsupport_airllm.Base.Dict.{lookup}
use ipsupport_airllm.Base.Float.{Float}
use ipsupport_airllm.Base.Ints.{ℤ, leqℤ, is_positive}
use ipsupport_airllm.Limits.Buckets.{Window, windows, sum_window}
use ipsupport_airllm.Limits.Check.{
  Limits, in_tokens, in_cost_usd, in_audio_seconds, in_tts_chars, Denial, Decision, refused,
  allowed, Usage, max_micro,
}

-- The sum is under the cap, where there is a cap.
abbrev pub Under : Option ℤ → ℤ → Type 0
Under none used = Unit
Under (some limit) used = is_positive limit ≡ true → leqℤ limit used ≡ false

abbrev pub UnderMicro : Option ℤ → ℤ → Type 0
UnderMicro none used = Unit
UnderMicro (some limit) used = leqℤ limit used ≡ false

module _ {F : Type 0} ⦃fl : Float F⦄ (int64_of : F → ℤ) (lim : Limits F) (now : Time)
    (u : Usage) where
  -- Every sum of a window is under its cap.
  abbrev pub UnderCaps : Window → Type 0
  UnderCaps win =
      Under (lookup win.name lim.tokens) (sum_window now win u.tok)
      × UnderMicro (max_micro int64_of (lookup win.name lim.cost_usd)) (sum_window now win u.cost)
      × Under (lookup win.name lim.audio_seconds) (sum_window now win u.audio)
      × Under (lookup win.name lim.tts_chars) (sum_window now win u.tts)

  -- What a refusal tells: a window, and the unit whose cap there the sum has reached. A cap that is
  -- not a cost's is positive.
  abbrev pub Tells : Denial → Window → Type 0
  Tells d win =
      (d.window ≡ win.name)
      × (leqℤ d.limit d.used ≡ true)
      × (((lookup win.name lim.tokens ≡ some d.limit)
            × (d.measure ≡ in_tokens)
            × (is_positive d.limit ≡ true)
            × (d.used ≡ sum_window now win u.tok))
          ⊎ ((max_micro int64_of (lookup win.name lim.cost_usd) ≡ some d.limit)
              × (d.measure ≡ in_cost_usd)
              × (d.used ≡ sum_window now win u.cost))
          ⊎ ((lookup win.name lim.audio_seconds ≡ some d.limit)
              × (d.measure ≡ in_audio_seconds)
              × (is_positive d.limit ≡ true)
              × (d.used ≡ sum_window now win u.audio))
          ⊎ ((lookup win.name lim.tts_chars ≡ some d.limit)
              × (d.measure ≡ in_tts_chars)
              × (is_positive d.limit ≡ true)
              × (d.used ≡ sum_window now win u.tts)))

  -- What a decision promises: a refusal names a cap that a window's sum has reached, and an allowed
  -- request finds every sum under its cap.
  abbrev pub Justified : Decision → Type 0
  Justified (refused d) = Some (Tells d) windows
  Justified (allowed n bucket) = All UnderCaps windows
