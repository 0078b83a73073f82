-- ===== src/Core/Quality/Tiers.antt =====
-- How the tier answers to the measurements.
use lado_flow.Base.{ℕ, ◌≤◌, ◌<◌, ◌≡◌, arith, some, ok}
use lado_flow.Base.Time.{Duration}
use lado_flow.Core.Negotiation.{NegotiatedCapabilities}
use lado_flow.Core.Telemetry.{LatencySnapshot}
use lado_flow.Core.Quality.{
  QualityPolicy, QualityTier, QualityRecommendation, high, balanced, constrained, new_policy,
  select_tier, recommend, limits_for, dimension_percent, refresh_cap, bitrate_percent,
}
use lado_flow.Core.Quality.Limits.{scale_percent_mono}

-- The thresholds of every policy that `new` accepts.
abbrev pub IsOrdered : QualityPolicy → Type 0
IsOrdered p = (p.high_p95 < p.constrained_p95) × (p.high_jitter < p.constrained_jitter)

abbrev pub rank : QualityTier → ℕ
rank constrained = 0
rank balanced = 1
rank high = 2

pub new_policy-IsOrdered :
    (a b c d : Duration) (p : QualityPolicy) → new_policy a b c d ≡ ok p → IsOrdered p
unfolding new_policy
new_policy-IsOrdered a b c d p e = ground arith

-- With ordered thresholds a worse measurement never selects a better tier.
select_tier_mono :
    (p : QualityPolicy) (u v : LatencySnapshot)
    → IsOrdered p
    → u.p95 ≤ v.p95
    → u.jitter ≤ v.jitter
    → rank (select_tier p (some v)) ≤ rank (select_tier p (some u))
unfolding select_tier
select_tier_mono p u v o h k = ground arith

percent_order :
    (s t : QualityTier)
    → rank s ≤ rank t
    → (dimension_percent s ≤ dimension_percent t)
      × (refresh_cap s ≤ refresh_cap t)
      × (bitrate_percent s ≤ bitrate_percent t)
percent_order s t h = ground arith

-- No limit of the first is above the second's.
pub record AsksNoMore (r q : QualityRecommendation) : Type 0 where
  pub width : r.width ≤ q.width
  pub height : r.height ≤ q.height
  pub refresh : r.refresh_millihz ≤ q.refresh_millihz
  pub bitrate : r.bitrate_kbps ≤ q.bitrate_kbps

limits_for_mono :
    (s t : QualityTier) (c : NegotiatedCapabilities)
    → rank s ≤ rank t
    → AsksNoMore (limits_for s c) (limits_for t c)
unfolding limits_for
limits_for_mono s t c h =
    let order = percent_order s t h in
    record {
      width = scale_percent_mono c.max_width _ _ order.0;
      height = scale_percent_mono c.max_height _ _ order.0;
      refresh = omega (arith, order.1);
      bitrate = scale_percent_mono c.max_bitrate_kbps _ _ order.2;
    }

-- Under a policy with ordered thresholds, a snapshot with no better tail and no less jitter gives
-- no higher limit.
pub recommend_mono :
    (p : QualityPolicy) (c : NegotiatedCapabilities) (u v : LatencySnapshot)
    → IsOrdered p
    → u.p95 ≤ v.p95
    → u.jitter ≤ v.jitter
    → AsksNoMore (recommend p c (some v)) (recommend p c (some u))
unfolding recommend
recommend_mono p c u v o h k =
    limits_for_mono (select_tier p (some v)) (select_tier p (some u)) c
      (select_tier_mono p u v o h k)
