-- ===== src/Protocol/Frame.antt =====
-- crates/ladoflow-protocol/src/frame.rs, first part: message kinds, flags and the fixed header.
-- A usize has 64 bits.
pub mod Header
pub mod Prefix
pub mod Stream
mod Examples
use lado_flow.Base.{
  ℕ, ◌+◌, ◌-◌, ◌*◌, ◌^◌, ◌==◌, ◌&&◌, Bool, List, [], ◌∷◌, ◌++◌, bit_and, bit_or, bit_xor, ltb,
  if◌then◌else◌, length, take, drop, Result, ok, err, ◌>>=◌, ◌>>◌, guard,
}
use lado_flow.Base.Time.{u16_max, u32_max, u64_max}
use lado_flow.Base.Bytes.{be16, be32, be64, read_u8, read_u16, read_u32, read_u64}
use lado_flow.Protocol.Error.{
  ProtocolError, invalid_magic, invalid_header_length, unsupported_version, unknown_message_type,
  unknown_frame_flags, payload_too_large,
}
use lado_flow.Protocol.Error.{MessageType}

-- `*b"LDFL"`.
abbrev pub frame_magic : List ℕ
frame_magic = b'L' ∷ b'D' ∷ b'F' ∷ b'L' ∷ []

abbrev pub frame_header_len : ℕ
frame_header_len = 24

abbrev pub max_control_payload : ℕ
max_control_payload = 64 * 1024

abbrev pub max_media_payload : ℕ
max_media_payload = 16 * 1024 * 1024

abbrev pub max_buffered_bytes : ℕ
max_buffered_bytes = 2 * (frame_header_len + max_media_payload)

abbrev pub protocol_version : ℕ
protocol_version = 1

abbrev pub usize_max : ℕ
usize_max = u64_max

abbrev pub payload_limit : MessageType → ℕ
payload_limit MessageType.video_frame = max_media_payload
payload_limit _ = max_control_payload

-- `kind as u16`.
abbrev pub kind_id : MessageType → ℕ
kind_id MessageType.hello = 1
kind_id MessageType.capabilities = 2
kind_id MessageType.display_config = 3
kind_id MessageType.video_frame = 4
kind_id MessageType.input = 5
kind_id MessageType.telemetry = 6
kind_id MessageType.ping = 7
kind_id MessageType.pong = 8
kind_id MessageType.error = 9

unfoldable pub kind_of_id : ℕ → Result ProtocolError MessageType
kind_of_id value =
    if value == 1
    then ok MessageType.hello
    else if value == 2
    then ok MessageType.capabilities
    else if value == 3
    then ok MessageType.display_config
    else if value == 4
    then ok MessageType.video_frame
    else if value == 5
    then ok MessageType.input
    else if value == 6
    then ok MessageType.telemetry
    else if value == 7
    then ok MessageType.ping
    else if value == 8
    then ok MessageType.pong
    else if value == 9
    then ok MessageType.error
    else err (unknown_message_type value)

-- `KEYFRAME | END_OF_STREAM | ACK_REQUIRED`, and its complement in a u16.
abbrev pub known_flags : ℕ
known_flags = 1 + 2 + 4

unfoldable pub flags_from_bits : ℕ → Result ProtocolError ℕ
flags_from_bits bits =
    if bit_and bits (bit_xor u16_max known_flags) == 0
    then ok bits
    else err (unknown_frame_flags bits)

unfoldable pub flags_contain : ℕ → ℕ → Bool
flags_contain flags other = bit_and flags other == other

pub record FrameHeader : Type 0 where
  pub version : ℕ
  pub kind : MessageType
  pub flags : ℕ
  pub sequence : ℕ
  pub payload_len : ℕ

unfoldable pub validate_payload_len : MessageType → ℕ → Result ProtocolError (Unit {0})
validate_payload_len kind payload_len =
    if ltb (payload_limit kind) payload_len
    then err (payload_too_large kind payload_len (payload_limit kind))
    else ok tt

-- `usize::try_from` on a u32.
payload_len_to_usize : MessageType → ℕ → Result ProtocolError ℕ
payload_len_to_usize kind payload_len =
    if ltb usize_max payload_len
    then err (payload_too_large kind usize_max (payload_limit kind))
    else ok payload_len

-- `u32::try_from` on a usize.
payload_len_to_u32 : MessageType → ℕ → Result ProtocolError ℕ
payload_len_to_u32 kind payload_len =
    if ltb u32_max payload_len
    then err (payload_too_large kind payload_len (payload_limit kind))
    else ok payload_len

unfoldable pub new_header : MessageType → ℕ → ℕ → ℕ → Result ProtocolError FrameHeader
unfolding validate_payload_len payload_len_to_u32
new_header kind flags sequence payload_len = do
  validate_payload_len kind payload_len
  len ← payload_len_to_u32 kind payload_len
  ok (record {
    version = protocol_version;
    kind = kind;
    flags = flags;
    sequence = sequence;
    payload_len = len;
  })

unfoldable pub encode_header : FrameHeader → List ℕ
encode_header h =
    frame_magic
    ++ (be16 h.version
        ++ (be16 frame_header_len
            ++ (be16 (kind_id h.kind)
                ++ (be16 h.flags ++ (be64 h.sequence ++ be32 h.payload_len)))))

-- `found_magic != FRAME_MAGIC`.
abbrev is_magic : List ℕ → Bool
is_magic bytes =
    read_u8 bytes 0 == b'L'
    && read_u8 bytes 1 == b'D'
    && read_u8 bytes 2 == b'F'
    && read_u8 bytes 3 == b'L'

unfoldable pub decode_header : List ℕ → Result ProtocolError FrameHeader
unfolding payload_len_to_usize validate_payload_len
decode_header bytes = do
  let found = read_u8 bytes 0 ∷ read_u8 bytes 1 ∷ read_u8 bytes 2 ∷ read_u8 bytes 3 ∷ []
  guard (is_magic bytes) (invalid_magic found)
  let version = read_u16 bytes 4
  guard (version == protocol_version) (unsupported_version version protocol_version)
  let header_len = read_u16 bytes 6
  guard (header_len == frame_header_len) (invalid_header_length header_len)
  kind ← kind_of_id (read_u16 bytes 8)
  flags ← flags_from_bits (read_u16 bytes 10)
  let sequence = read_u64 bytes 12
  let payload_len = read_u32 bytes 20
  payload_len_usize ← payload_len_to_usize kind payload_len
  validate_payload_len kind payload_len_usize
  ok (record {
    version = version;
    kind = kind;
    flags = flags;
    sequence = sequence;
    payload_len = payload_len;
  })

pub record Frame : Type 0 where
  pub header : FrameHeader
  pub payload : List ℕ

unfoldable pub new_frame : MessageType → ℕ → ℕ → List ℕ → Result ProtocolError Frame
unfolding new_header
new_frame kind flags sequence payload = do
  header ← new_header kind flags sequence (length payload)
  ok (record { header = header; payload = payload })

unfoldable pub encoded_len : Frame → ℕ
encoded_len f = frame_header_len + length f.payload

unfoldable pub encode_frame : Frame → List ℕ
encode_frame f = encode_header f.header ++ f.payload

pub data DecodeOutcome : Type 0 where
  complete : (frame : Frame) (consumed : ℕ) → DecodeOutcome
  need_more_data : (minimum : ℕ) → DecodeOutcome

-- `decode_prefix` once the header is known.
pub take_frame : List ℕ → FrameHeader → ℕ → DecodeOutcome
take_frame bytes header payload_len =
    let total_len = frame_header_len + payload_len in
    if ltb (length bytes) total_len
    then need_more_data total_len
    else complete
        (record { header = header; payload = take payload_len (drop frame_header_len bytes) })
        total_len

unfoldable pub decode_prefix : List ℕ → Result ProtocolError DecodeOutcome
unfolding take_frame payload_len_to_usize
decode_prefix bytes =
    if ltb (length bytes) frame_header_len then ok (need_more_data frame_header_len) else do
      header ← decode_header (take frame_header_len bytes)
      payload_len ← payload_len_to_usize header.kind header.payload_len
      ok (take_frame bytes header payload_len)
