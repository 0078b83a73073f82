-- ===== src/Protocol/Message.antt =====
-- crates/ladoflow-protocol/src/message.rs: the two payloads of the handshake. The bit sets are
-- their masks, and a name is its UTF-8 bytes.
pub mod Payload
pub mod Handshake
pub mod Offer
pub mod Exchange
mod Examples
use lado_flow.Base.{
  ℕ, ◌+◌, ◌==◌, Bool, true, false, not, ◌||◌, List, [], ◌∷◌, ◌++◌, bit_and, bit_xor, ltb,
  if◌then◌else◌, length, take, drop, Result, ok, err, ◌>>=◌, ◌>>◌, guard,
}
use lado_flow.Base.Time.{u16_max, u32_max}
use lado_flow.Base.Bytes.{be16, be32, read_u8, read_u16, read_u32}
use lado_flow.Base.Utf8.{is_utf8}
use lado_flow.Protocol.Error.{ProtocolError, invalid_payload, invalid_utf8}

abbrev pub hello_prefix_len : ℕ
hello_prefix_len = 22

abbrev pub capabilities_len : ℕ
capabilities_len = 20

abbrev pub max_implementation_name_bytes : ℕ
max_implementation_name_bytes = 64

pub data Role : Type 0 where
  host display : Role

-- The derived equality.
unfoldable pub same_role : Role → Role → Bool
same_role host host = true
same_role display display = true
same_role _ _ = false

-- `role as u8`.
abbrev pub role_id : Role → ℕ
role_id host = 1
role_id display = 2

unfoldable pub role_of_id : ℕ → Result ProtocolError Role
role_of_id value =
    if value == 1
    then ok host
    else if value == 2
    then ok display
    else err (invalid_payload "unknown endpoint role")

pub record Hello : Type 0 where
  pub min_protocol : ℕ
  pub max_protocol : ℕ
  pub role : Role
  pub nonce : List ℕ
  pub implementation_name : List ℕ

unfoldable pub validate_protocol_range : ℕ → ℕ → Result ProtocolError (Unit {0})
validate_protocol_range min_protocol max_protocol =
    if min_protocol == 0
    then err (invalid_payload "minimum protocol version must be non-zero")
    else if ltb max_protocol min_protocol
    then err (invalid_payload "minimum protocol version exceeds maximum")
    else ok tt

-- The character U+0000 is the byte 0, and no other character has that byte.
unfoldable pub contains_null : List ℕ → Bool
contains_null [] = false
contains_null (b ∷ bs) = b == 0 || contains_null bs

unfoldable pub validate_implementation_name : List ℕ → Result ProtocolError (Unit {0})
validate_implementation_name name =
    if length name == 0
    then err (invalid_payload "implementation name must not be empty")
    else if ltb max_implementation_name_bytes (length name)
    then err (invalid_payload "implementation name is too long")
    else if contains_null name
    then err (invalid_payload "implementation name contains a null byte")
    else ok tt

unfoldable pub new_hello : ℕ → ℕ → Role → List ℕ → List ℕ → Result ProtocolError Hello
unfolding validate_protocol_range validate_implementation_name
new_hello min_protocol max_protocol role nonce name = do
  validate_protocol_range min_protocol max_protocol
  validate_implementation_name name
  ok (record {
    min_protocol = min_protocol;
    max_protocol = max_protocol;
    role = role;
    nonce = nonce;
    implementation_name = name;
  })

unfoldable pub encode_hello : Hello → Result ProtocolError (List ℕ)
unfolding validate_protocol_range validate_implementation_name
encode_hello h = do
  validate_protocol_range h.min_protocol h.max_protocol
  validate_implementation_name h.implementation_name
  let name = h.implementation_name
  guard (not (ltb 255 (length name))) (invalid_payload "implementation name is too long")
  ok (
      be16 h.min_protocol
      ++ (be16 h.max_protocol ++ (role_id h.role ∷ length name ∷ (h.nonce ++ name))))

unfoldable pub decode_hello : List ℕ → Result ProtocolError Hello
unfolding new_hello
decode_hello payload = do
  guard (not (ltb (length payload) hello_prefix_len)) (invalid_payload "hello payload is truncated")
  let min_protocol = read_u16 payload 0
  let max_protocol = read_u16 payload 2
  role ← role_of_id (read_u8 payload 4)
  let expected_len = hello_prefix_len + read_u8 payload 5
  guard (length payload == expected_len)
      (invalid_payload "hello implementation-name length does not match payload")
  let nonce = take 16 (drop 6 payload)
  let name = drop 22 payload
  guard (is_utf8 name) invalid_utf8
  new_hello min_protocol max_protocol role nonce name

-- `CodecSet`, `InputCapabilities` and `FeatureFlags` each define the bits 0 to 2.
abbrev pub known_mask : ℕ
known_mask = 1 + 2 + 4

unfoldable pub codecs_from_bits : ℕ → Result ProtocolError ℕ
codecs_from_bits bits =
    if bit_and bits (bit_xor u16_max known_mask) == 0
    then ok bits
    else err (invalid_payload "unknown codec capability")

unfoldable pub input_from_bits : ℕ → Result ProtocolError ℕ
input_from_bits bits =
    if bit_and bits (bit_xor u16_max known_mask) == 0
    then ok bits
    else err (invalid_payload "unknown input capability")

unfoldable pub features_from_bits : ℕ → Result ProtocolError ℕ
features_from_bits bits =
    if bit_and bits (bit_xor u32_max known_mask) == 0
    then ok bits
    else err (invalid_payload "unknown feature capability")

pub record Capabilities : Type 0 where
  pub max_width : ℕ
  pub max_height : ℕ
  pub max_refresh_millihz : ℕ
  pub max_bitrate_kbps : ℕ
  pub codecs : ℕ
  pub input : ℕ
  pub features : ℕ

-- The checks of `Capabilities::new`, whose value is its argument.
unfoldable pub new_capabilities : Capabilities → Result ProtocolError Capabilities
new_capabilities c =
    if c.max_width == 0 || c.max_height == 0
    then err (invalid_payload "maximum display dimensions must be non-zero")
    else if c.max_refresh_millihz == 0
    then err (invalid_payload "maximum refresh rate must be non-zero")
    else if c.max_bitrate_kbps == 0
    then err (invalid_payload "maximum bitrate must be non-zero")
    else if c.codecs == 0
    then err (invalid_payload "at least one codec must be supported")
    else ok c

unfoldable pub encode_capabilities : Capabilities → Result ProtocolError (List ℕ)
unfolding new_capabilities
encode_capabilities c = do
  new_capabilities c >>= λ _. ok tt
  ok (
      be16 c.max_width
      ++ (be16 c.max_height
          ++ (be32 c.max_refresh_millihz
              ++ (be32 c.max_bitrate_kbps
                  ++ (be16 c.codecs ++ (be16 c.input ++ be32 c.features))))))

unfoldable pub decode_capabilities : List ℕ → Result ProtocolError Capabilities
unfolding new_capabilities
decode_capabilities payload = do
  guard (length payload == capabilities_len)
      (invalid_payload "capabilities payload must be exactly 20 bytes")
  codecs ← codecs_from_bits (read_u16 payload 12)
  input ← input_from_bits (read_u16 payload 14)
  features ← features_from_bits (read_u32 payload 16)
  new_capabilities (record {
    max_width = read_u16 payload 0;
    max_height = read_u16 payload 2;
    max_refresh_millihz = read_u32 payload 4;
    max_bitrate_kbps = read_u32 payload 8;
    codecs = codecs;
    input = input;
    features = features;
  })
