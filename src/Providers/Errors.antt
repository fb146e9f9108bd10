-- ===== src/Providers/Errors.antt =====
-- internal/providers/errors.go: what a failed provider call is, and which failures let the next tier
-- try. An error that is no `*providers.Error` is `other_error`.
use ipsupport_airllm.Base.{ℕ, String, Bool, true, false, ◌||◌, Option}
use ipsupport_airllm.Base.Clock.{Duration}

-- `Error.Code`: none, the codes that the program tests for, or any other text.
pub data Code : Type 0 where
  no_code context_length_exceeded model_not_found multimodal_not_supported : Code
  reasoning_effort_unsupported voice_not_supported provider_auth tier_timeout : Code
  other_code : String → Code

pub record ProviderError : Type 0 where
  pub status : ℕ
  pub retryable : Bool
  pub code : Code
  pub retry_after : Option Duration

-- What a call can return for an error. The synthesis cache answers with `served_without_call`.
pub data CallError : Type 0 where
  provider_error : ProviderError → CallError
  served_without_call other_error : CallError

abbrev pub is_auth_code : Code → Bool
is_auth_code provider_auth = true
is_auth_code _ = false

abbrev pub is_mismatch_code : Code → Bool
is_mismatch_code context_length_exceeded = true
is_mismatch_code model_not_found = true
is_mismatch_code multimodal_not_supported = true
is_mismatch_code reasoning_effort_unsupported = true
is_mismatch_code voice_not_supported = true
is_mismatch_code _ = false

unfoldable pub is_auth_failure : CallError → Bool
is_auth_failure (provider_error e) = is_auth_code e.code
is_auth_failure _ = false

unfoldable pub is_retryable : CallError → Bool
is_retryable (provider_error e) = e.retryable
is_retryable _ = false

unfoldable pub is_target_mismatch : CallError → Bool
is_target_mismatch (provider_error e) = is_mismatch_code e.code
is_target_mismatch _ = false

unfoldable pub is_fallback_worthy : CallError → Bool
unfolding is_retryable is_target_mismatch
is_fallback_worthy e = is_retryable e || is_target_mismatch e
