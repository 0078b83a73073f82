-- ===== src/Core/Quality.antt =====
-- crates/ladoflow-core/src/quality.rs: stream limits from latency measurements.
pub mod Limits
pub mod Tiers
mod Examples
use lado_flow.Base.{
  ℕ, ◌+◌, ◌*◌, ◌/◌, ◌%◌, ◌&&◌, ◌||◌, Option, none, some, min, max, leb, if◌then◌else◌, Result, ok,
  err,
}
use lado_flow.Base.Time.{Duration, u32_max}
use lado_flow.Core.Negotiation.{NegotiatedCapabilities}
use lado_flow.Core.Telemetry.{LatencySnapshot}

pub data QualityTier : Type 0 where
  high balanced constrained : QualityTier

pub record QualityRecommendation : Type 0 where
  pub tier : QualityTier
  pub width : ℕ
  pub height : ℕ
  pub refresh_millihz : ℕ
  pub bitrate_kbps : ℕ

pub record QualityPolicy : Type 0 where
  pub high_p95 : Duration
  pub high_jitter : Duration
  pub constrained_p95 : Duration
  pub constrained_jitter : Duration

pub data QualityPolicyError : Type 0 where
  thresholds_out_of_order : QualityPolicyError

unfoldable pub new_policy :
    Duration → Duration → Duration → Duration → Result QualityPolicyError QualityPolicy
new_policy high_p95 high_jitter constrained_p95 constrained_jitter =
    if leb constrained_p95 high_p95 || leb constrained_jitter high_jitter
    then err thresholds_out_of_order
    else ok (record {
      high_p95 = high_p95;
      high_jitter = high_jitter;
      constrained_p95 = constrained_p95;
      constrained_jitter = constrained_jitter;
    })

-- `scale_u16_percent` and `scale_u32_percent` are one formula. The products are within the types:
-- `scale_percent_fits` in Limits.
unfoldable pub scale_percent : ℕ → ℕ → ℕ
scale_percent value percent =
    let whole = value / 100 * percent in
    let remainder = value % 100 * percent / 100 in max (whole + remainder) 1

unfoldable pub select_tier : QualityPolicy → Option LatencySnapshot → QualityTier
select_tier policy none = balanced
select_tier policy (some snapshot) =
    if leb snapshot.p95 policy.high_p95 && leb snapshot.jitter policy.high_jitter
    then high
    else if leb policy.constrained_p95 snapshot.p95 || leb policy.constrained_jitter snapshot.jitter
    then constrained
    else balanced

abbrev dimension_percent : QualityTier → ℕ
dimension_percent high = 100
dimension_percent balanced = 75
dimension_percent constrained = 50

abbrev bitrate_percent : QualityTier → ℕ
bitrate_percent high = 100
bitrate_percent balanced = 70
bitrate_percent constrained = 40

abbrev refresh_cap : QualityTier → ℕ
refresh_cap high = u32_max
refresh_cap balanced = 60_000
refresh_cap constrained = 30_000

limits_for : QualityTier → NegotiatedCapabilities → QualityRecommendation
limits_for tier capabilities = record {
  tier = tier;
  width = scale_percent capabilities.max_width (dimension_percent tier);
  height = scale_percent capabilities.max_height (dimension_percent tier);
  refresh_millihz = min capabilities.max_refresh_millihz (refresh_cap tier);
  bitrate_kbps = scale_percent capabilities.max_bitrate_kbps (bitrate_percent tier);
}

unfoldable pub recommend :
    QualityPolicy → NegotiatedCapabilities → Option LatencySnapshot → QualityRecommendation
unfolding limits_for
recommend policy capabilities snapshot = limits_for (select_tier policy snapshot) capabilities
