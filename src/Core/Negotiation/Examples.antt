-- ===== src/Core/Negotiation/Examples.antt =====
-- Handshakes at concrete endpoints, and the theorems at such inputs.
use lado_flow.Base.{◌≡◌, ◌<◌, ◌↔◌, refl, [], ok, err, IsOk}
use lado_flow.Protocol.Message.{Hello, Capabilities, host, display}
use lado_flow.Core.Negotiation.{NegotiatedSession, no_common_codec, negotiate}
use lado_flow.Core.Negotiation.Agreement.{
  negotiate_comm, IsHighestShared, Covers, negotiate_sound, AreCompatible, negotiate_iff,
}

abbrev host_hello : Hello
host_hello = record {
  min_protocol = 1;
  max_protocol = 4;
  role = host;
  nonce = [];
  implementation_name = [];
}

abbrev display_hello : Hello
display_hello = record host_hello { min_protocol = 2; max_protocol = 3; role = display }

abbrev host_offer : Capabilities
host_offer = record {
  max_width = 3840;
  max_height = 2160;
  max_refresh_millihz = 120_000;
  max_bitrate_kbps = 50_000;
  codecs = 3;
  input = 5;
  features = 6;
}

abbrev display_offer : Capabilities
display_offer = record {
  max_width = 2560;
  max_height = 1600;
  max_refresh_millihz = 90_000;
  max_bitrate_kbps = 30_000;
  codecs = 5;
  input = 3;
  features = 3;
}

abbrev granted : NegotiatedSession
granted = record {
  protocol_version = 3;
  capabilities = record {
    max_width = 2560;
    max_height = 1600;
    max_refresh_millihz = 90_000;
    max_bitrate_kbps = 30_000;
    codec_bits = 1;
    input_bits = 1;
    feature_bits = 2;
  };
}

negotiated : negotiate host_hello host_offer display_hello display_offer ≡ ok granted
unfolding negotiate
negotiated = refl

disjoint_codecs :
    negotiate host_hello (record host_offer { codecs = 2 }) display_hello display_offer
    ≡ err no_common_codec
unfolding negotiate
disjoint_codecs = refl

negotiate_comm_example :
    negotiate host_hello host_offer display_hello display_offer
    ≡ negotiate display_hello display_offer host_hello host_offer
negotiate_comm_example = negotiate_comm host_hello display_hello host_offer display_offer

negotiate_sound_example :
    IsHighestShared host_hello display_hello 3
    × Covers host_offer granted.capabilities
    × Covers display_offer granted.capabilities
    × (0 < 1)
negotiate_sound_example =
    negotiate_sound host_hello display_hello host_offer display_offer granted negotiated

-- The grant itself is covered, so it is within the grant.
negotiate_iff_example :
    IsOk (negotiate host_hello host_offer display_hello display_offer)
    ↔ AreCompatible host_hello display_hello host_offer display_offer
negotiate_iff_example = negotiate_iff host_hello display_hello host_offer display_offer
