-- ===== src/Desktop/Modes/Plan.antt =====
-- The configuration of a session against the request and the two endpoints' offers.
use mathlib.Core.Path.{subst}
use lado_flow.Base.{
  ℕ, ◌*◌, ◌≤◌, ◌<◌, ◌≡◌, ◌≢◌, refl, arith, ◌⊎◌, inl, inr, ok, Result-cases, min, bit_and,
}
use lado_flow.Protocol.Message.{Hello, Capabilities}
use lado_flow.Protocol.Display.{DisplayConfig, new_display_config, h264, h264_main}
use lado_flow.Core.Negotiation.{NegotiatedSession, negotiate}
use lado_flow.Core.Negotiation.Agreement.{Covers, negotiate_sound}
use lado_flow.Desktop.Modes.{
  Mode, HostProtocolConfig, select_bounded_display_dimensions, target_h264_bitrate, select_refresh,
  refuse, select_display_config,
}
use lado_flow.Desktop.Modes.Selection.{IsSelected, IsSelected-Within, select-IsSelected}

-- What a session's configuration keeps of the request and of the limits that were negotiated.
pub record IsPlanned (r : HostProtocolConfig) (g : NegotiatedSession) (c : DisplayConfig)
    : Type 0 where
  pub mode :
      IsSelected
        (r.width, r.height)
        (g.capabilities.max_width, g.capabilities.max_height)
        (c.width, c.height)
  pub refresh : c.refresh_millihz ≤ g.capabilities.max_refresh_millihz
  pub rate :
      (c.refresh_millihz ≡ r.refresh_hz * 1000)
      ⊎ ((g.capabilities.max_refresh_millihz < r.refresh_hz * 1000)
          × (c.refresh_millihz ≡ 30000)
          × (r.refresh_hz ≡ 60))
  pub bitrate : c.bitrate_kbps ≤ g.capabilities.max_bitrate_kbps
  pub ceiling : c.bitrate_kbps ≤ 40000
  pub floor : (4000 ≤ c.bitrate_kbps) ⊎ (c.bitrate_kbps ≡ g.capabilities.max_bitrate_kbps)
  pub nonzero : (0 < c.width) × (0 < c.height) × (0 < c.refresh_millihz) × (0 < c.bitrate_kbps)
  pub codec : (c.codec ≡ h264) × (c.profile ≡ h264_main) × (bit_and g.capabilities.codec_bits 1 ≢ 0)

target_bounds :
    (m : Mode) (hz : ℕ) → (4000 ≤ target_h264_bitrate m hz) × (target_h264_bitrate m hz ≤ 40000)
unfolding target_h264_bitrate
target_bounds m hz = ground arith

select_refresh_ok :
    (hz limit f : ℕ)
    → select_refresh hz limit ≡ ok f
    → (f ≤ limit) × ((f ≡ hz * 1000) ⊎ ((limit < hz * 1000) × (f ≡ 30000) × (hz ≡ 60)))
unfolding select_refresh
select_refresh_ok hz limit f e = ground arith

-- The configuration that is made of a mode and a rate.
abbrev config_of : NegotiatedSession → Mode → ℕ → DisplayConfig
config_of g mode refresh = record {
  width = mode.0;
  height = mode.1;
  refresh_millihz = refresh;
  bitrate_kbps = min (target_h264_bitrate mode refresh) g.capabilities.max_bitrate_kbps;
  codec = h264;
  profile = h264_main;
}

new_display_config_ok :
    (d c : DisplayConfig)
    → refuse (new_display_config d) ≡ ok c
    → (d ≡ c) × (0 < d.width) × (0 < d.height) × (0 < d.refresh_millihz) × (0 < d.bitrate_kbps)
unfolding refuse new_display_config
new_display_config_ok d c e = ground arith

config_of-IsPlanned :
    (r : HostProtocolConfig) (g : NegotiatedSession) (mode : Mode) (refresh : ℕ)
    → bit_and g.capabilities.codec_bits 1 ≢ 0
    → select_bounded_display_dimensions
        (r.width, r.height)
        (g.capabilities.max_width, g.capabilities.max_height)
      ≡ ok mode
    → select_refresh r.refresh_hz g.capabilities.max_refresh_millihz ≡ ok refresh
    → let d = config_of g mode refresh in
      (0 < d.width) × (0 < d.height) × (0 < d.refresh_millihz) × (0 < d.bitrate_kbps)
      → IsPlanned r g (config_of g mode refresh)
config_of-IsPlanned r g mode refresh coded m f nonzero =
    let rate = select_refresh_ok r.refresh_hz g.capabilities.max_refresh_millihz refresh f in
    let target = target_bounds mode refresh in
    record {
      mode = select-IsSelected _ _ mode m;
      refresh = rate.0;
      rate = rate.1;
      bitrate = omega arith;
      ceiling = omega arith;
      floor = ground arith;
      nonzero = nonzero;
      codec = (refl, refl, coded);
    }

-- A configuration that is selected has the requested mode where that is within the agreed limits,
-- and otherwise a mode of the ladder, within the request and the limits and of the request's
-- orientation, that no such mode of the ladder beats in aspect and then in area; a refresh within
-- the limit, the one requested, or 30 Hz for 60 where the limit is below; a bitrate of at most the
-- limit and 40000, and at least 4000 unless it is the limit; no zero field; and H.264, which was
-- agreed on.
pub select_display_config-IsPlanned :
    (r : HostProtocolConfig) (g : NegotiatedSession) (c : DisplayConfig)
    → select_display_config r g ≡ ok c
    → IsPlanned r g c
unfolding select_display_config
select_display_config-IsPlanned r g c e =
    elim (Result-cases (
      select_bounded_display_dimensions (r.width, r.height)
        (g.capabilities.max_width, g.capabilities.max_height))) [
          | inr (x, m) ↦ absurd (ground arith)
          | inl (mode, m) ↦
              elim (Result-cases (select_refresh r.refresh_hz g.capabilities.max_refresh_millihz)) [
                | inr (x, f) ↦ absurd (ground arith)
                | inl (refresh, f) ↦
                    let coded : bit_and g.capabilities.codec_bits 1 ≢ 0 = ground arith in
                    let made : refuse (new_display_config (config_of g mode refresh)) ≡ ok c =
                      ground arith in
                    let (same, wide, high, fast, coded_rate) =
                      new_display_config_ok (config_of g mode refresh) c made in
                    subst (IsPlanned r g) same (
                      config_of-IsPlanned r g mode refresh coded m f (wide, high, fast, coded_rate))
              ]
        ]

-- The configuration is within what one endpoint advertises.
pub record IsServedBy (a : Capabilities) (c : DisplayConfig) : Type 0 where
  pub width : c.width ≤ a.max_width
  pub height : c.height ≤ a.max_height
  pub refresh : c.refresh_millihz ≤ a.max_refresh_millihz
  pub bitrate : c.bitrate_kbps ≤ a.max_bitrate_kbps

served :
    {r : HostProtocolConfig} {g : NegotiatedSession} {c : DisplayConfig} (a : Capabilities)
    → Covers a g.capabilities
    → IsPlanned r g c
    → IsServedBy a c
served a v p = record {
  width = omega (arith, v.width, (IsSelected-Within _ _ _ p.mode).1.0);
  height = omega (arith, v.height, (IsSelected-Within _ _ _ p.mode).1.1);
  refresh = omega (arith, v.refresh, p.refresh);
  bitrate = omega (arith, v.bitrate, p.bitrate);
}

-- A configuration that is selected for a negotiated session is within the size, refresh and bitrate
-- that each of the two endpoints offered.
pub select_display_config-negotiate :
    (r : HostProtocolConfig) (h k : Hello) (a b : Capabilities) (g : NegotiatedSession)
    (c : DisplayConfig)
    → negotiate h a k b ≡ ok g
    → select_display_config r g ≡ ok c
    → IsServedBy a c × IsServedBy b c
select_display_config-negotiate r h k a b g c n e =
    let s = negotiate_sound h k a b g n in
    let p = select_display_config-IsPlanned r g c e in (served a s.1 p, served b s.2 p)
