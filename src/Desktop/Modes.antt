-- ===== src/Desktop/Modes.antt =====
-- apps/desktop/src-tauri/src/host_protocol.rs, second part: the display mode that a session uses.
pub mod Fit
pub mod Selection
pub mod Plan
mod Examples
use Prim.Native.Nat.{compare, Ordering}
use lado_flow.Base.{
  ℕ, ◌+◌, ◌-◌, ◌*◌, ◌/◌, ◌==◌, ◌&&◌, ◌||◌, not, Bool, true, false, Option, none, some, List, [],
  ◌∷◌, ltb, leb, if◌then◌else◌, min, max, bit_and, Result, ok, err, ◌>>=◌, ◌>>◌, guard,
}
use lado_flow.Base.Time.{u32_max, u64_max}
use lado_flow.Protocol.Error.{ProtocolError}
use lado_flow.Protocol.Display.{DisplayConfig, new_display_config, h264, h264_main}
use lado_flow.Core.Negotiation.{NegotiatedSession}

-- A width and a height.
abbrev pub Mode : Type 0
Mode = ℕ × ℕ

-- `NEGOTIATED_LANDSCAPE_MODES`.
abbrev pub landscape_modes : List Mode
landscape_modes =
    (2732, 2048)
    ∷ (2560, 1600)
    ∷ (2560, 1440)
    ∷ (2048, 1536)
    ∷ (1920, 1200)
    ∷ (1920, 1080)
    ∷ (1600, 1200)
    ∷ (1366, 768)
    ∷ (1280, 800)
    ∷ (1280, 720)
    ∷ (1024, 768)
    ∷ (1024, 640)
    ∷ (960, 600)
    ∷ (960, 540)
    ∷ (800, 600)
    ∷ (800, 500)
    ∷ (640, 480)
    ∷ (640, 400)
    ∷ []

pub record HostProtocolConfig : Type 0 where
  pub width : ℕ
  pub height : ℕ
  pub refresh_hz : ℕ

-- The error texts, one constructor each.
pub data ModeError : Type 0 where
  zero_dimensions unsupported_refresh no_h264 no_mode refresh_too_low : ModeError
  refused : (reason : ProtocolError) → ModeError

-- `HostProtocolConfig::new`.
unfoldable pub new_config : ℕ → ℕ → ℕ → Result ModeError HostProtocolConfig
new_config width height refresh_hz =
    if width == 0 || height == 0
    then err zero_dimensions
    else if not (refresh_hz == 30 || refresh_hz == 60)
    then err unsupported_refresh
    else ok (record { width = width; height = height; refresh_hz = refresh_hz })

-- `u64::abs_diff`.
abbrev pub abs_diff : ℕ → ℕ → ℕ
abs_diff a b = if ltb a b then b - a else a - b

-- The products of u16 values fit a u64.
abbrev pub aspect_delta : Mode → Mode → ℕ
aspect_delta requested mode = abs_diff (mode.0 * requested.1) (requested.0 * mode.1)

abbrev pub area : Mode → ℕ
area mode = mode.0 * mode.1

-- `Ordering::then_with`.
abbrev pub then_with : Ordering → Ordering → Ordering
then_with Ordering.eq other = other
then_with Ordering.lt other = Ordering.lt
then_with Ordering.gt other = Ordering.gt

unfoldable pub compare_mode_fit : Mode → Mode → Mode → Ordering
compare_mode_fit requested left right =
    then_with
      (compare (aspect_delta requested left * right.1) (aspect_delta requested right * left.1))
      (compare (area right) (area left))

-- The filter of `select_bounded_display_dimensions`.
abbrev pub is_eligible : Mode → Mode → Mode → Bool
is_eligible requested limit mode =
    (if leb requested.1 requested.0 then leb mode.1 mode.0 else not (leb mode.1 mode.0))
    && leb mode.0 requested.0
    && leb mode.1 requested.1
    && leb mode.0 limit.0
    && leb mode.1 limit.1

unfoldable pub eligible : Mode → Mode → List Mode → List Mode
eligible requested limit [] = []
eligible requested limit (m ∷ ms) =
    if is_eligible requested limit m
    then m ∷ eligible requested limit ms
    else eligible requested limit ms

-- One step of `min_by`: a later element replaces the least so far only if it is smaller.
unfoldable pub smaller : Mode → Mode → Mode → Mode
unfolding compare_mode_fit
smaller requested best m = elim (compare_mode_fit requested best m) [ Ordering.gt ↦ m | _ ↦ best ]

-- `Iterator::min_by`, which keeps the first of equal elements.
unfoldable pub min_from : Mode → Mode → List Mode → Mode
unfolding smaller
min_from requested best [] = best
min_from requested best (m ∷ ms) = min_from requested (smaller requested best m) ms

unfoldable pub min_by_fit : Mode → List Mode → Option Mode
unfolding min_from
min_by_fit requested [] = none
min_by_fit requested (m ∷ ms) = some (min_from requested m ms)

-- `ok_or_else`.
found_mode : Option Mode → Result ModeError Mode
found_mode none = err no_mode
found_mode (some mode) = ok mode

unfoldable pub select_bounded_display_dimensions : Mode → Mode → Result ModeError Mode
unfolding eligible min_by_fit found_mode
select_bounded_display_dimensions requested limit =
    if leb requested.0 limit.0 && leb requested.1 limit.1
    then ok requested
    else found_mode (min_by_fit requested (eligible requested limit landscape_modes))

-- `u64::saturating_mul`.
abbrev pub saturating_mul : ℕ → ℕ → ℕ
saturating_mul a b = min (a * b) u64_max

unfoldable pub target_h264_bitrate : Mode → ℕ → ℕ
target_h264_bitrate mode refresh_millihz =
    let pixels_per_second = saturating_mul (saturating_mul mode.0 mode.1) refresh_millihz / 1000 in
    let estimate_kbps = saturating_mul pixels_per_second 12 / 100000 in
    max 4000 (min 40000 (if ltb u32_max estimate_kbps then u32_max else estimate_kbps))

-- The refresh rate that `select_display_config` uses.
unfoldable pub select_refresh : ℕ → ℕ → Result ModeError ℕ
select_refresh refresh_hz max_refresh_millihz =
    if leb (refresh_hz * 1000) max_refresh_millihz
    then ok (refresh_hz * 1000)
    else if refresh_hz == 60 && leb 30000 max_refresh_millihz
    then ok 30000
    else err refresh_too_low

-- `map_err` of the protocol's error.
refuse : Result ProtocolError DisplayConfig → Result ModeError DisplayConfig
refuse (ok c) = ok c
refuse (err e) = err (refused e)

unfoldable pub select_display_config :
    HostProtocolConfig → NegotiatedSession → Result ModeError DisplayConfig
unfolding select_bounded_display_dimensions target_h264_bitrate select_refresh refuse
select_display_config requested agreement = do
  let limits = agreement.capabilities
  guard (not (bit_and limits.codec_bits 1 == 0)) no_h264
  mode ←
      select_bounded_display_dimensions (requested.width, requested.height)
        (limits.max_width, limits.max_height)
  refresh_millihz ← select_refresh requested.refresh_hz limits.max_refresh_millihz
  refuse (
      new_display_config (record {
        width = mode.0;
        height = mode.1;
        refresh_millihz = refresh_millihz;
        bitrate_kbps = min (target_h264_bitrate mode refresh_millihz) limits.max_bitrate_kbps;
        codec = h264;
        profile = h264_main;
      }))
