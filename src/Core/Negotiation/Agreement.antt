-- ===== src/Core/Negotiation/Agreement.antt =====
-- `negotiate` beside a description of what two endpoints share.
use lado_flow.Base.{
  ℕ, ◌≤◌, ◌<◌, ◌≡◌, ◌≢◌, ◌↔◌, inl, inr, arith, bit_and, IsOk, Result-cases, ok, err,
}
use lado_flow.Base.Bits.{bit, bit-bit_and, bit_and_comm, bit_and_pos, common_bit}
use lado_flow.Protocol.Message.{Hello, Capabilities, same_role}
use lado_flow.Core.Negotiation.{
  NegotiatedCapabilities, NegotiatedSession, NegotiationError, negotiate,
}

-- The answer does not depend on which endpoint is the local one, errors included.
pub negotiate_comm : (h k : Hello) (a b : Capabilities) → negotiate h a k b ≡ negotiate k b h a
unfolding negotiate
negotiate_comm h k a b = ground (
  arith,
  bit_and_comm a.codecs b.codecs,
  bit_and_comm a.input b.input,
  bit_and_comm a.features b.features,
)

-- A version is the highest that both ranges hold.
pub record IsHighestShared (h k : Hello) (v : ℕ) : Type 0 where
  pub local_range : (h.min_protocol ≤ v) × (v ≤ h.max_protocol)
  pub remote_range : (k.min_protocol ≤ v) × (v ≤ k.max_protocol)
  pub highest : (w : ℕ) → w ≤ h.max_protocol → w ≤ k.max_protocol → w ≤ v

-- `a` advertises at least what was granted: no scalar above its maximum, no bit that it lacks.
pub record Covers (a : Capabilities) (g : NegotiatedCapabilities) : Type 0 where
  pub width : g.max_width ≤ a.max_width
  pub height : g.max_height ≤ a.max_height
  pub refresh : g.max_refresh_millihz ≤ a.max_refresh_millihz
  pub bitrate : g.max_bitrate_kbps ≤ a.max_bitrate_kbps
  pub codec : (i : ℕ) → bit i g.codec_bits ≤ bit i a.codecs
  pub inputs : (i : ℕ) → bit i g.input_bits ≤ bit i a.input
  pub feature : (i : ℕ) → bit i g.feature_bits ≤ bit i a.features

bit-bit_and-le_left : (i a b : ℕ) → bit i (bit_and a b) ≤ bit i a
bit-bit_and-le_left i a b = omega (arith, bit-bit_and i a b)

bit-bit_and-le_right : (i a b : ℕ) → bit i (bit_and a b) ≤ bit i b
bit-bit_and-le_right i a b = omega (arith, bit-bit_and i a b)

-- A session that is formed uses the highest version that both ranges hold, grants nothing above
-- what either endpoint advertises, bit by bit for the sets, and has a codec.
pub negotiate_sound :
    (h k : Hello) (a b : Capabilities) (g : NegotiatedSession)
    → negotiate h a k b ≡ ok g
    → IsHighestShared h k g.protocol_version
      × Covers a g.capabilities
      × Covers b g.capabilities
      × (0 < g.capabilities.codec_bits)
unfolding negotiate
negotiate_sound h k a b g e = (
  ground arith,
  grind (arith, bit-bit_and-le_left),
  grind (arith, bit-bit_and-le_right),
  ground arith,
)

-- Any capabilities that both endpoints cover are within those that a formed session grants.
pub negotiate_greatest :
    (h k : Hello) (a b : Capabilities) (g : NegotiatedSession) (c : NegotiatedCapabilities)
    → negotiate h a k b ≡ ok g
    → Covers a c
    → Covers b c
    → (c.max_width ≤ g.capabilities.max_width)
      × (c.max_height ≤ g.capabilities.max_height)
      × (c.max_refresh_millihz ≤ g.capabilities.max_refresh_millihz)
      × (c.max_bitrate_kbps ≤ g.capabilities.max_bitrate_kbps)
      × ((i : ℕ)
          → (bit i c.codec_bits ≤ bit i g.capabilities.codec_bits)
            × (bit i c.input_bits ≤ bit i g.capabilities.input_bits)
            × (bit i c.feature_bits ≤ bit i g.capabilities.feature_bits))
unfolding negotiate
negotiate_greatest h k a b g c e p q = (
  ground arith,
  ground arith,
  ground arith,
  ground arith,
  λ i. (
    ground (arith, bit-bit_and i a.codecs b.codecs, p.codec i, q.codec i),
    ground (arith, bit-bit_and i a.input b.input, p.inputs i, q.inputs i),
    ground (arith, bit-bit_and i a.features b.features, p.feature i, q.feature i),
  ),
)

-- A version and a codec that both endpoints have, and roles that differ.
pub record AreCompatible (h k : Hello) (a b : Capabilities) : Type 0 where
  pub roles : h.role ≢ k.role
  pub version : ℕ
  pub local_range : (h.min_protocol ≤ version) × (version ≤ h.max_protocol)
  pub remote_range : (k.min_protocol ≤ version) × (version ≤ k.max_protocol)
  pub codec : ℕ
  pub local_codec : bit codec a.codecs ≡ 1
  pub remote_codec : bit codec b.codecs ≡ 1

negotiate_not_err :
    (h k : Hello) (a b : Capabilities) (x : NegotiationError)
    → AreCompatible h k a b
    → negotiate h a k b ≢ err x
unfolding negotiate same_role
negotiate_not_err h k a b x c e =
    ground (arith, bit_and_pos c.codec a.codecs b.codecs c.local_codec c.remote_codec)

negotiate_complete :
    (h k : Hello) (a b : Capabilities) → AreCompatible h k a b → IsOk (negotiate h a k b)
negotiate_complete h k a b c = elim (Result-cases (negotiate h a k b)) [
  | inl r ↦ r
  | inr (x, e) ↦ absurd (negotiate_not_err h k a b x c e)
]

negotiate_roles :
    (h k : Hello) (a b : Capabilities) (g : NegotiatedSession)
    → negotiate h a k b ≡ ok g
    → h.role ≢ k.role
unfolding negotiate same_role
negotiate_roles h k a b g e = ground arith

negotiate_codec :
    (h k : Hello) (a b : Capabilities) (g : NegotiatedSession)
    → negotiate h a k b ≡ ok g
    → 0 < bit_and a.codecs b.codecs
unfolding negotiate
negotiate_codec h k a b g e = ground arith

negotiate_compatible :
    (h k : Hello) (a b : Capabilities) → IsOk (negotiate h a k b) → AreCompatible h k a b
negotiate_compatible h k a b (g, e) =
    let (shared, _, _, _) = negotiate_sound h k a b g e in
    let (i, p, q) = common_bit a.codecs b.codecs (negotiate_codec h k a b g e) in
    record {
      roles = negotiate_roles h k a b g e;
      version = g.protocol_version;
      local_range = shared.local_range;
      remote_range = shared.remote_range;
      codec = i;
      local_codec = p;
      remote_codec = q;
    }

-- A session is formed exactly when the roles differ, the version ranges overlap and some codec bit
-- is set on both sides.
pub negotiate_iff :
    (h k : Hello) (a b : Capabilities) → IsOk (negotiate h a k b) ↔ AreCompatible h k a b
negotiate_iff h k a b = (negotiate_compatible h k a b, negotiate_complete h k a b)
