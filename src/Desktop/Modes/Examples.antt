-- ===== src/Desktop/Modes/Examples.antt =====
-- The choice of a mode at concrete requests, and the theorems there.
use lado_flow.Base.{◌≡◌, refl, [], ◌∷◌, ok, err}
use lado_flow.Protocol.Message.{Role, Hello, Capabilities, same_role}
use lado_flow.Protocol.Display.{DisplayConfig, h264, h264_main, new_display_config}
use lado_flow.Core.Negotiation.{NegotiatedSession, negotiate}
use lado_flow.Desktop.Modes.{
  HostProtocolConfig, no_mode, select_bounded_display_dimensions, target_h264_bitrate,
  select_refresh, select_display_config, compare_mode_fit,
}
use lado_flow.Desktop.Modes.Plan.{
  IsPlanned, select_display_config-IsPlanned, IsServedBy, select_display_config-negotiate,
}

abbrev request : HostProtocolConfig
request = record { width = 2560; height = 1600; refresh_hz = 60 }

abbrev hello : Role → Hello
hello role = record {
  min_protocol = 1;
  max_protocol = 1;
  role = role;
  nonce = 1 ∷ [];
  implementation_name = 97 ∷ [];
}

abbrev host_offer : Capabilities
host_offer = record {
  max_width = 2560;
  max_height = 1600;
  max_refresh_millihz = 60000;
  max_bitrate_kbps = 40000;
  codecs = 1;
  input = 7;
  features = 2;
}

-- A tablet that decodes less than was asked for.
abbrev tablet_offer : Capabilities
tablet_offer = record host_offer {
  max_width = 2000;
  max_height = 1300;
  max_refresh_millihz = 30000;
  max_bitrate_kbps = 20000;
}

abbrev agreement : NegotiatedSession
agreement = record {
  protocol_version = 1;
  capabilities = record {
    max_width = 2000;
    max_height = 1300;
    max_refresh_millihz = 30000;
    max_bitrate_kbps = 20000;
    codec_bits = 1;
    input_bits = 7;
    feature_bits = 2;
  };
}

-- 1920 by 1200 keeps the aspect of 2560 by 1600, and 1920 by 1080 does not.
abbrev plan : DisplayConfig
plan = record {
  width = 1920;
  height = 1200;
  refresh_millihz = 30000;
  bitrate_kbps = 8294;
  codec = h264;
  profile = h264_main;
}

agreed : negotiate (hello Role.host) host_offer (hello Role.display) tablet_offer ≡ ok agreement
unfolding negotiate same_role
agreed = refl

planned : select_display_config request agreement ≡ ok plan
unfolding select_display_config select_bounded_display_dimensions compare_mode_fit
    target_h264_bitrate select_refresh new_display_config
planned = refl

portrait_has_no_mode : select_bounded_display_dimensions (1080, 1920) (1000, 1920) ≡ err no_mode
unfolding select_bounded_display_dimensions
portrait_has_no_mode = refl

select_display_config-IsPlanned_example : IsPlanned request agreement plan
select_display_config-IsPlanned_example =
    select_display_config-IsPlanned request agreement plan planned

select_display_config-negotiate_example : IsServedBy host_offer plan × IsServedBy tablet_offer plan
select_display_config-negotiate_example =
    select_display_config-negotiate request (hello Role.host) (hello Role.display) host_offer
      tablet_offer agreement plan agreed planned
