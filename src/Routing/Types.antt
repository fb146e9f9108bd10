-- ===== src/Routing/Types.antt =====
-- The data of internal/routing/routing.go. Strings that the database restricts to a few words are
-- enumerations: `Strategy` and `LcrMode` have their `default` branch's word for any other text.
use ipsupport_airllm.Base.{
  ℕ, String, Bool, true, Option, none, some, List, ltb, leb, if◌then◌else◌, ◌&&◌, ◌*◌, not,
}
use ipsupport_airllm.Base.Float.{Float}
use ipsupport_airllm.Base.Clock.{Duration, second}
use ipsupport_airllm.Base.Dict.{Dict}

pub data Strategy : Type 0 where
  round_robin least_busy lcr : Strategy

pub data LcrMode : Type 0 where
  price availability both : LcrMode

pub record LcrRank (F : Type 0) : Type 0 where
  pub price : F
  pub availability : F

-- A nil field is unset.
pub record BreakerOptions (F : Type 0) : Type 0 where
  pub enabled : Option Bool
  pub failures : Option ℕ
  pub error_rate : Option F
  pub window_ms : Option ℕ
  pub min_requests : Option ℕ
  pub cooldown_ms : Option ℕ
  pub max_cooldown_ms : Option ℕ
  pub stable_ms : Option ℕ

pub record VoiceChoice : Type 0 where
  pub voice : String
  pub model : String
  pub language : String
  pub gender : String

pub record TargetOptions (F : Type 0) : Type 0 where
  pub timeout_ms : Option ℕ
  pub fallback_on_auth : Option Bool
  pub breaker : Option (BreakerOptions F)
  pub thinking : Option String
  pub recognition_models : Dict String String
  pub voices : Dict String VoiceChoice
  pub default_voices : Dict String VoiceChoice
  pub send_language : Option Bool
  pub stream_speech : Option Bool

pub record Target (F : Type 0) : Type 0 where
  pub provider : String
  pub upstream_model : String
  pub upstream_protocol : String
  pub display_label : String
  pub options : TargetOptions F
  pub tier : ℕ

pub record Plan (F : Type 0) : Type 0 where
  pub alias : String
  pub strategy : Strategy
  pub dlp_model_scan : Bool
  pub expose_backend_headers : Bool
  pub dlp_audio_scan : Bool
  pub tiers : List (List (Target F))
  pub session_affinity : Bool
  pub session_affinity_ttl : Duration
  pub synthesis_cache : Bool
  pub synthesis_cache_ttl : Duration
  pub lcr_mode : LcrMode
  pub lcr_min_availability : F

abbrev positive : Option ℕ → Bool
positive none = true
positive (some v) = ltb 0 v

abbrev rate_ok : {F : Type 0} ⦃fl : Float F⦄ → Option F → Bool
rate_ok none = true
rate_ok ⦃fl⦄ (some v) = not (fl.le v (fl.of_int 0)) && not (fl.lt (fl.of_int 1) v)

-- `(*BreakerOptions).Validate`: whether nothing is out of range. Numbers that are submitted as
-- negative are not positive either and are 0 here.
unfoldable pub validate : {F : Type 0} ⦃fl : Float F⦄ → BreakerOptions F → Bool
validate b =
    positive b.failures
    && (positive b.window_ms
        && (positive b.min_requests
            && (positive b.cooldown_ms
                && (positive b.max_cooldown_ms && (positive b.stable_ms && rate_ok b.error_rate)))))

-- `AffinityTTL`
unfoldable pub affinity_ttl : ℕ → Duration
affinity_ttl seconds = if leb seconds 0 then 14400 * second else seconds * second

-- `SynthesisCacheTTL`
unfoldable pub synthesis_cache_ttl : ℕ → Duration
synthesis_cache_ttl seconds = if leb seconds 0 then 604800 * second else seconds * second
