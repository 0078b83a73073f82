-- ===== src/Core/Negotiation.antt =====
-- crates/ladoflow-core/src/negotiation.rs: what two endpoints agree on.
pub mod Agreement
mod Examples
use lado_flow.Base.{
  ℕ, ◌≡◌, ◌==◌, Bool, true, ◌&&◌, ◌↔◌, arith, ltb, if◌then◌else◌, min, max, bit_and, Result, ok,
  err,
}
use lado_flow.Protocol.Message.{Hello, same_role, Capabilities}

pub record NegotiatedCapabilities : Type 0 where
  pub max_width : ℕ
  pub max_height : ℕ
  pub max_refresh_millihz : ℕ
  pub max_bitrate_kbps : ℕ
  pub codec_bits : ℕ
  pub input_bits : ℕ
  pub feature_bits : ℕ

pub record NegotiatedSession : Type 0 where
  pub protocol_version : ℕ
  pub capabilities : NegotiatedCapabilities

pub data NegotiationError : Type 0 where
  matching_roles no_protocol_overlap no_common_codec : NegotiationError

-- The derived `PartialEq` of the two structs, field by field.
pub same_capabilities : NegotiatedCapabilities → NegotiatedCapabilities → Bool
same_capabilities a b =
    a.max_width == b.max_width
    && a.max_height == b.max_height
    && a.max_refresh_millihz == b.max_refresh_millihz
    && a.max_bitrate_kbps == b.max_bitrate_kbps
    && a.codec_bits == b.codec_bits
    && a.input_bits == b.input_bits
    && a.feature_bits == b.feature_bits

unfoldable pub same_agreement : NegotiatedSession → NegotiatedSession → Bool
unfolding same_capabilities
same_agreement a b =
    a.protocol_version == b.protocol_version && same_capabilities a.capabilities b.capabilities

shared_capabilities : Capabilities → Capabilities → NegotiatedCapabilities
shared_capabilities l r = record {
  max_width = min l.max_width r.max_width;
  max_height = min l.max_height r.max_height;
  max_refresh_millihz = min l.max_refresh_millihz r.max_refresh_millihz;
  max_bitrate_kbps = min l.max_bitrate_kbps r.max_bitrate_kbps;
  codec_bits = bit_and l.codecs r.codecs;
  input_bits = bit_and l.input r.input;
  feature_bits = bit_and l.features r.features;
}

unfoldable pub negotiate :
    Hello → Capabilities → Hello → Capabilities → Result NegotiationError NegotiatedSession
unfolding shared_capabilities same_role
negotiate local_hello local remote_hello remote =
    let lowest = max local_hello.min_protocol remote_hello.min_protocol in
    let highest = min local_hello.max_protocol remote_hello.max_protocol in
    if same_role local_hello.role remote_hello.role
    then err matching_roles
    else if ltb highest lowest
    then err no_protocol_overlap
    else if bit_and local.codecs remote.codecs == 0
    then err no_common_codec
    else ok (record { protocol_version = highest; capabilities = shared_capabilities local remote })

pub same_capabilities_iff :
    (a b : NegotiatedCapabilities) → (same_capabilities a b ≡ true) ↔ (a ≡ b)
unfolding same_capabilities
same_capabilities_iff a b = ground arith

-- The comparison of agreements is equality.
pub same_agreement_iff : (a b : NegotiatedSession) → (same_agreement a b ≡ true) ↔ (a ≡ b)
unfolding same_agreement
same_agreement_iff a b = ground arith
