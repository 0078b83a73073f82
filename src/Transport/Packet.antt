-- ===== src/Transport/Packet.antt =====
-- crates/ladoflow-transport/src/packet.rs and transport.rs: packets, queue limits and occupancy,
-- what a send or a receive answers, and the interface that every transport implements.
use lado_flow.Base.{
  ℕ, ◌+◌, ◌==◌, min, Option, none, some, List, ltb, length, Result, ok, ◌>>◌, guard, not,
}
use lado_flow.Protocol.Frame.{usize_max}

pub data Channel : Type 0 where
  control media : Channel

pub record Packet : Type 0 where
  pub channel : Channel
  pub supersession_key : Option ℕ
  pub payload : List ℕ

-- `Packet::control`, `media` and `replaceable_media`.
abbrev pub control_packet : List ℕ → Packet
control_packet bytes = record {
  channel = Channel.control;
  supersession_key = none;
  payload = bytes;
}

abbrev pub media_packet : List ℕ → Packet
media_packet bytes = record { channel = Channel.media; supersession_key = none; payload = bytes }

abbrev pub replaceable_media : ℕ → List ℕ → Packet
replaceable_media key bytes = record {
  channel = Channel.media;
  supersession_key = some key;
  payload = bytes;
}

abbrev pub packet_len : Packet → ℕ
packet_len p = length p.payload

pub data ConnectionState : Type 0 where
  connected disconnected : ConnectionState

pub record QueueLimits : Type 0 where
  pub max_packets : ℕ
  pub max_queued_bytes : ℕ
  pub max_packet_bytes : ℕ

pub data QueueLimitsError : Type 0 where
  zero_packet_capacity zero_byte_capacity zero_packet_size_limit : QueueLimitsError
  packet_size_limit_exceeds_capacity : (max_packet_bytes max_queued_bytes : ℕ) → QueueLimitsError

-- `QueueLimits::new`.
unfoldable pub new_limits : ℕ → ℕ → ℕ → Result QueueLimitsError QueueLimits
new_limits packets queued_bytes packet_bytes = do
  guard (not (packets == 0)) zero_packet_capacity
  guard (not (queued_bytes == 0)) zero_byte_capacity
  guard (not (packet_bytes == 0)) zero_packet_size_limit
  guard (not (ltb queued_bytes packet_bytes))
      (packet_size_limit_exceeds_capacity packet_bytes queued_bytes)
  ok (record {
    max_packets = packets;
    max_queued_bytes = queued_bytes;
    max_packet_bytes = packet_bytes;
  })

pub record QueueDepth : Type 0 where
  pub packets : ℕ
  pub bytes : ℕ

-- `QueueDepth::default()`.
abbrev pub no_depth : QueueDepth
no_depth = record { packets = 0; bytes = 0 }

-- `usize::saturating_add`.
abbrev pub saturating_add : ℕ → ℕ → ℕ
saturating_add a b = min (a + b) usize_max

abbrev pub add_depth : QueueDepth → QueueDepth → QueueDepth
add_depth a b = record {
  packets = saturating_add a.packets b.packets;
  bytes = saturating_add a.bytes b.bytes;
}

pub record SendReport : Type 0 where
  pub superseded : QueueDepth

pub data SendError : Type 0 where
  disconnected : (packet : Packet) → SendError
  full : (packet : Packet) (depth : QueueDepth) (limits : QueueLimits) → SendError
  packet_too_large : (packet : Packet) (size limit : ℕ) → SendError

-- `SendError::into_packet`.
unfoldable pub into_packet : SendError → Packet
into_packet (disconnected packet) = packet
into_packet (full packet depth limits) = packet
into_packet (packet_too_large packet size limit) = packet

pub data ReceiveError : Type 0 where
  disconnected : ReceiveError

-- The trait `PacketTransport` over a state `S`: a call returns its answer beside the new state.
pub record PacketTransport (S : Type 0) : Type 0 where
  pub connection_state : S → ConnectionState
  pub try_send : S → Packet → Result SendError SendReport × S
  pub try_receive : S → Channel → Result ReceiveError (Option Packet) × S
