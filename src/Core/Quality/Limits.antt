-- ===== src/Core/Quality/Limits.antt =====
-- The limits of a recommendation beside what was negotiated.
use lado_flow.Base.{ℕ, ◌+◌, ◌*◌, ◌/◌, ◌%◌, ◌≤◌, ◌<◌, ◌≡◌, ap, arith, max, Option, ok}
use native.Mathlib.Nat.{div-add-mod, mul-le-mul_left}
use lado_flow.Base.Time.{u16_max, u32_max}
use lado_flow.Protocol.Message.{Hello, Capabilities}
use lado_flow.Protocol.Message.Offer.{IsOffer}
use lado_flow.Core.Negotiation.{NegotiatedCapabilities, NegotiatedSession, negotiate}
use lado_flow.Core.Negotiation.Agreement.{negotiate_sound}
use lado_flow.Core.Telemetry.{LatencySnapshot}
use lado_flow.Core.Quality.{
  QualityPolicy, QualityTier, QualityRecommendation, scale_percent, select_tier, recommend,
  limits_for, high, balanced, constrained,
}

-- Splitting off the hundreds before multiplying loses nothing: the scaled value is the percentage
-- rounded down, and at least 1.
pub scale_percent-eq_div :
    (value percent : ℕ) → scale_percent value percent ≡ max (value * percent / 100) 1
unfolding scale_percent
scale_percent-eq_div value percent =
    omega (arith, ap (λ (t : ℕ). t * percent) (div-add-mod value 100))

-- No intermediate product of a u16 or a u32 wraps.
pub scale_percent_fits :
    (value percent bound : ℕ)
    → percent ≤ 100
    → 9_900 ≤ bound
    → value ≤ bound
    → (value / 100 * percent ≤ bound)
      × (value % 100 * percent ≤ bound)
      × (value / 100 * percent + value % 100 * percent / 100 ≤ bound)
scale_percent_fits value percent bound small wide h = grind arith

scale_percent-le :
    (value percent : ℕ) → 0 < value → percent ≤ 100 → scale_percent value percent ≤ value
unfolding scale_percent
scale_percent-le value percent pos small = grind arith

scale_percent_pos : (value percent : ℕ) → 0 < scale_percent value percent
unfolding scale_percent
scale_percent_pos value percent = omega arith

pub scale_percent_mono : (value p q : ℕ) → p ≤ q → scale_percent value p ≤ scale_percent value q
scale_percent_mono value p q h =
    omega
      (arith, scale_percent-eq_div value p, scale_percent-eq_div value q, mul-le-mul_left value h)

-- What negotiation grants to a pair of valid advertisements.
pub record IsUsable (c : NegotiatedCapabilities) : Type 0 where
  pub width : (0 < c.max_width) × (c.max_width ≤ u16_max)
  pub height : (0 < c.max_height) × (c.max_height ≤ u16_max)
  pub refresh : (0 < c.max_refresh_millihz) × (c.max_refresh_millihz ≤ u32_max)
  pub bitrate : (0 < c.max_bitrate_kbps) × (c.max_bitrate_kbps ≤ u32_max)

-- Every limit of the recommendation is positive and no larger than the one that was negotiated.
pub record IsWithin (r : QualityRecommendation) (c : NegotiatedCapabilities) : Type 0 where
  pub width : (0 < r.width) × (r.width ≤ c.max_width)
  pub height : (0 < r.height) × (r.height ≤ c.max_height)
  pub refresh : (0 < r.refresh_millihz) × (r.refresh_millihz ≤ c.max_refresh_millihz)
  pub bitrate : (0 < r.bitrate_kbps) × (r.bitrate_kbps ≤ c.max_bitrate_kbps)

scaled :
    (value percent : ℕ)
    → 0 < value
    → percent ≤ 100
    → (0 < scale_percent value percent) × (scale_percent value percent ≤ value)
scaled value percent pos small =
    (scale_percent_pos value percent, scale_percent-le value percent pos small)

limits_for-IsWithin :
    (tier : QualityTier) (c : NegotiatedCapabilities) → IsUsable c → IsWithin (limits_for tier c) c
unfolding limits_for
limits_for-IsWithin high c u = record {
  width = scaled c.max_width 100 u.width.0 (omega arith);
  height = scaled c.max_height 100 u.height.0 (omega arith);
  refresh = omega (arith, u.refresh);
  bitrate = scaled c.max_bitrate_kbps 100 u.bitrate.0 (omega arith);
}
limits_for-IsWithin balanced c u = record {
  width = scaled c.max_width 75 u.width.0 (omega arith);
  height = scaled c.max_height 75 u.height.0 (omega arith);
  refresh = omega (arith, u.refresh);
  bitrate = scaled c.max_bitrate_kbps 70 u.bitrate.0 (omega arith);
}
limits_for-IsWithin constrained c u = record {
  width = scaled c.max_width 50 u.width.0 (omega arith);
  height = scaled c.max_height 50 u.height.0 (omega arith);
  refresh = omega (arith, u.refresh);
  bitrate = scaled c.max_bitrate_kbps 40 u.bitrate.0 (omega arith);
}

-- For every policy and snapshot.
pub recommend-IsWithin :
    (policy : QualityPolicy) (c : NegotiatedCapabilities) (snapshot : Option LatencySnapshot)
    → IsUsable c
    → IsWithin (recommend policy c snapshot) c
unfolding recommend
recommend-IsWithin policy c snapshot u = limits_for-IsWithin (select_tier policy snapshot) c u

-- The grant of two valid offers has no zero limit.
negotiate-IsUsable :
    (h k : Hello) (a b : Capabilities) (g : NegotiatedSession)
    → IsOffer a
    → IsOffer b
    → negotiate h a k b ≡ ok g
    → IsUsable g.capabilities
unfolding negotiate
negotiate-IsUsable h k a b g va vb e = ground arith

-- `r` asks for something of everything, and for no more than `c` advertised.
pub record IsServed (r : QualityRecommendation) (c : Capabilities) : Type 0 where
  pub width : (0 < r.width) × (r.width ≤ c.max_width)
  pub height : (0 < r.height) × (r.height ≤ c.max_height)
  pub refresh : (0 < r.refresh_millihz) × (r.refresh_millihz ≤ c.max_refresh_millihz)
  pub bitrate : (0 < r.bitrate_kbps) × (r.bitrate_kbps ≤ c.max_bitrate_kbps)

-- After a handshake of endpoints whose offers meet IsOffer, each limit of a recommendation is
-- positive and at most what each of the two endpoints advertised, for every policy and snapshot.
pub recommend-IsServed :
    (h k : Hello) (a b : Capabilities) (g : NegotiatedSession) (policy : QualityPolicy)
    (snapshot : Option LatencySnapshot)
    → IsOffer a
    → IsOffer b
    → negotiate h a k b ≡ ok g
    → IsServed (recommend policy g.capabilities snapshot) a
      × IsServed (recommend policy g.capabilities snapshot) b
recommend-IsServed h k a b g policy snapshot va vb e =
    let r =
      recommend-IsWithin policy g.capabilities snapshot (negotiate-IsUsable h k a b g va vb e) in
    let (_, p, q, _) = negotiate_sound h k a b g e in
    (
      record {
        width = (r.width.0, omega (arith, r.width, p.width));
        height = (r.height.0, omega (arith, r.height, p.height));
        refresh = (r.refresh.0, omega (arith, r.refresh, p.refresh));
        bitrate = (r.bitrate.0, omega (arith, r.bitrate, p.bitrate));
      },
      record {
        width = (r.width.0, omega (arith, r.width, q.width));
        height = (r.height.0, omega (arith, r.height, q.height));
        refresh = (r.refresh.0, omega (arith, r.refresh, q.refresh));
        bitrate = (r.bitrate.0, omega (arith, r.bitrate, q.bitrate));
      },
    )
