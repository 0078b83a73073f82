-- ===== src/Protocol/Control/Liveness.antt =====
-- Pings and pongs on the wire.
use lado_flow.Base.{
  ℕ, ◌^◌, ◌≤◌, ◌<◌, ◌≡◌, ◌↔◌, refl, ap, ◌∙◌, arith, List, ◌++◌, All, length, listing_lem, ok,
  read_back,
}
use lado_flow.Base.Bytes.{IsByte, be64, read_u64, word64-be, read_u64-lt, be64-read_u64}
use lado_flow.Protocol.Control.{Ping, encode_ping, decode_ping, Pong, encode_pong, decode_pong}

-- A pong that the constructor builds from u64s.
pub record IsPong (p : Pong) : Type 0 where
  pub token : p.token < 2 ^ 64
  pub client_send : p.client_send_timestamp_micros < 2 ^ 64
  pub server_send : p.server_send_timestamp_micros < 2 ^ 64
  pub in_order : p.server_receive_timestamp_micros ≤ p.server_send_timestamp_micros

abbrev pong_bytes : Pong → List ℕ
pong_bytes p =
    be64 p.token
    ++ (be64 p.client_send_timestamp_micros
        ++ (be64 p.server_receive_timestamp_micros ++ be64 p.server_send_timestamp_micros))

encode_pong_valid : (p : Pong) → IsPong p → encode_pong p ≡ ok (pong_bytes p)
unfolding encode_pong
encode_pong_valid p v = ground arith

decode_pong_lem :
    (b : List ℕ) (p : Pong)
    → length b ≡ 32
    → IsPong p
    → read_u64 b 0 ≡ p.token
    → read_u64 b 8 ≡ p.client_send_timestamp_micros
    → read_u64 b 16 ≡ p.server_receive_timestamp_micros
    → read_u64 b 24 ≡ p.server_send_timestamp_micros
    → decode_pong b ≡ ok p
unfolding decode_pong
decode_pong_lem b p n v x y z w = ground arith

pub decode_pong-encode_pong :
    (p : Pong) → IsPong p → (b : List ℕ) × (encode_pong p ≡ ok b) × (decode_pong b ≡ ok p)
decode_pong-encode_pong p v = (
  pong_bytes p,
  encode_pong_valid p v,
  decode_pong_lem (pong_bytes p) p refl v (word64-be p.token v.token)
      (word64-be p.client_send_timestamp_micros v.client_send)
      (word64-be p.server_receive_timestamp_micros (omega (arith, v.server_send, v.in_order)))
      (word64-be p.server_send_timestamp_micros v.server_send),
)

record Decoded (b : List ℕ) (p : Pong) : Type 0 where
  size : length b ≡ 32
  in_order : p.server_receive_timestamp_micros ≤ p.server_send_timestamp_micros
  client : (p.token ≡ read_u64 b 0) × (p.client_send_timestamp_micros ≡ read_u64 b 8)
  server :
      (p.server_receive_timestamp_micros ≡ read_u64 b 16)
      × (p.server_send_timestamp_micros ≡ read_u64 b 24)

decode_pong-Decoded : (b : List ℕ) (p : Pong) → decode_pong b ≡ ok p → Decoded b p
unfolding decode_pong
decode_pong-Decoded b p e = ground arith

-- What decodes is the encoding of what it decodes to.
pub decode_pong_canonical :
    (b : List ℕ) (p : Pong)
    → All IsByte b
    → decode_pong b ≡ ok p
    → IsPong p × (encode_pong p ≡ ok b)
decode_pong_canonical b p w e =
    let d = decode_pong-Decoded b p e in
    let v : IsPong p = record {
      token = omega (arith, d.client.0, read_u64-lt b w 0);
      client_send = omega (arith, d.client.1, read_u64-lt b w 8);
      server_send = omega (arith, d.server.1, read_u64-lt b w 24);
      in_order = d.in_order;
    } in
    (
      v,
      encode_pong_valid p v
          ∙ ap ok (
              cc (
                listing_lem 32 b 0 d.size,
                ap be64 d.client.0,
                be64-read_u64 b w 0,
                ap be64 d.client.1,
                be64-read_u64 b w 8,
                ap be64 d.server.0,
                be64-read_u64 b w 16,
                ap be64 d.server.1,
                be64-read_u64 b w 24,
              )),
    )

-- Bytes decode to a pong exactly when it meets IsPong and they are its encoding.
pub decode_pong_iff :
    (b : List ℕ) (p : Pong)
    → All IsByte b
    → (decode_pong b ≡ ok p) ↔ (IsPong p × (encode_pong p ≡ ok b))
decode_pong_iff b p w = (
  decode_pong_canonical b p w,
  λ (v, e). read_back encode_pong decode_pong p b e (decode_pong-encode_pong p v),
)

-- A ping of u64s.
pub record IsPing (p : Ping) : Type 0 where
  pub token : p.token < 2 ^ 64
  pub client_send : p.client_send_timestamp_micros < 2 ^ 64

decode_ping-Decoded :
    (b : List ℕ) (p : Ping)
    → decode_ping b ≡ ok p
    → (length b ≡ 16) × (p.token ≡ read_u64 b 0) × (p.client_send_timestamp_micros ≡ read_u64 b 8)
unfolding decode_ping
decode_ping-Decoded b p e = ground arith

decode_ping-encode_ping :
    (p : Ping) → IsPing p → (b : List ℕ) × (encode_ping p ≡ ok b) × (decode_ping b ≡ ok p)
unfolding encode_ping decode_ping
decode_ping-encode_ping p v = (
  be64 p.token ++ be64 p.client_send_timestamp_micros,
  refl,
  cc (word64-be p.token v.token, word64-be p.client_send_timestamp_micros v.client_send),
)

decode_ping_canonical :
    (b : List ℕ) (p : Ping)
    → All IsByte b
    → decode_ping b ≡ ok p
    → IsPing p × (encode_ping p ≡ ok b)
unfolding encode_ping
decode_ping_canonical b p w e =
    let (size, token, client) = decode_ping-Decoded b p e in
    (
      record {
        token = omega (arith, token, read_u64-lt b w 0);
        client_send = omega (arith, client, read_u64-lt b w 8);
      },
      ap ok (
          cc (
            listing_lem 16 b 0 size,
            ap be64 token,
            be64-read_u64 b w 0,
            ap be64 client,
            be64-read_u64 b w 8,
          )),
    )

-- Bytes decode to a ping exactly when it meets IsPing and they are its encoding.
pub decode_ping_iff :
    (b : List ℕ) (p : Ping)
    → All IsByte b
    → (decode_ping b ≡ ok p) ↔ (IsPing p × (encode_ping p ≡ ok b))
decode_ping_iff b p w = (
  decode_ping_canonical b p w,
  λ (v, e). read_back encode_ping decode_ping p b e (decode_ping-encode_ping p v),
)
