-- ===== src/Core/Quality/Examples.antt =====
-- The quality policy at concrete measurements, and the theorems at such inputs.
use lado_flow.Base.{◌≡◌, ◌*◌, ◌/◌, max, refl, arith, [], none, some}
use lado_flow.Protocol.Message.{Hello, Capabilities, host, display}
use lado_flow.Protocol.Message.Offer.{IsOffer}
use lado_flow.Core.Negotiation.{NegotiatedSession, negotiate}
use lado_flow.Core.Telemetry.{LatencySnapshot}
use lado_flow.Core.Quality.{QualityPolicy, balanced, scale_percent, select_tier, recommend}
use lado_flow.Core.Quality.Limits.{scale_percent-eq_div, IsServed, recommend-IsServed}

abbrev default_policy : QualityPolicy
default_policy = record {
  high_p95 = 40_000_000;
  high_jitter = 8_000_000;
  constrained_p95 = 90_000_000;
  constrained_jitter = 20_000_000;
}

abbrev steady : LatencySnapshot
steady = record {
  sample_count = 4;
  total_sample_count = 4;
  min = 20_000_000;
  mean = 22_000_000;
  p50 = 22_000_000;
  p95 = 24_000_000;
  max = 24_000_000;
  jitter = 2_000_000;
}

abbrev slow : LatencySnapshot
slow = record steady { p95 = 95_000_000; max = 95_000_000; jitter = 21_666_000 }

abbrev offer : Capabilities
offer = record {
  max_width = 2000;
  max_height = 1200;
  max_refresh_millihz = 120_000;
  max_bitrate_kbps = 10_000;
  codecs = 1;
  input = 0;
  features = 0;
}

abbrev hello : Hello
hello = record {
  min_protocol = 1;
  max_protocol = 1;
  role = host;
  nonce = [];
  implementation_name = [];
}

abbrev grant : NegotiatedSession
grant = record {
  protocol_version = 1;
  capabilities = record {
    max_width = 2000;
    max_height = 1200;
    max_refresh_millihz = 120_000;
    max_bitrate_kbps = 10_000;
    codec_bits = 1;
    input_bits = 0;
    feature_bits = 0;
  };
}

no_evidence : recommend default_policy grant.capabilities none ≡ record {
  tier = balanced;
  width = 1500;
  height = 900;
  refresh_millihz = 60_000;
  bitrate_kbps = 7_000;
}
unfolding recommend select_tier scale_percent
no_evidence = refl

offer-IsOffer : IsOffer offer
offer-IsOffer = omega arith

scale_percent-eq_div_example : scale_percent 1999 75 ≡ max (1999 * 75 / 100) 1
scale_percent-eq_div_example = scale_percent-eq_div 1999 75

recommend-IsServed_example :
    IsServed (recommend default_policy grant.capabilities (some slow)) offer
    × IsServed (recommend default_policy grant.capabilities (some slow)) offer
unfolding negotiate
recommend-IsServed_example =
    recommend-IsServed hello (record hello { role = display }) offer offer grant default_policy
      (some slow) offer-IsOffer offer-IsOffer refl
