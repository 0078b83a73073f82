-- ===== src/Transport/Queue/Spec.antt =====
-- What a lane promises: a FIFO of packets with no byte counter beside it. A send drops the packets
-- that share its key, and is refused where the rest and the new packet do not fit.
use lado_flow.Base.{
  ℕ, ◌+◌, ◌||◌, Option, none, some, List, [], ◌∷◌, ◌++◌, ltb, if◌then◌else◌, length, Result, ok,
  err,
}
use lado_flow.Transport.Packet.{
  Packet, packet_len, QueueLimits, QueueDepth, SendReport, SendError, full, packet_too_large,
}
use lado_flow.Transport.Queue.{has_key}

-- The sum of the payload sizes.
abbrev pub total : List Packet → ℕ
total [] = 0
total (p ∷ ps) = packet_len p + total ps

abbrev pub occupancy : List Packet → QueueDepth
occupancy ps = record { packets = length ps; bytes = total ps }

-- The packets with the key, oldest first.
abbrev pub with_key : ℕ → List Packet → List Packet
with_key key [] = []
with_key key (p ∷ ps) =
    if has_key key p.supersession_key then p ∷ with_key key ps else with_key key ps

abbrev pub obsolete : Option ℕ → List Packet → List Packet
obsolete none ps = []
obsolete (some key) ps = with_key key ps

-- The packets with no key or another one.
abbrev pub others : ℕ → List Packet → List Packet
others key [] = []
others key (p ∷ ps) = if has_key key p.supersession_key then others key ps else p ∷ others key ps

abbrev pub current : Option ℕ → List Packet → List Packet
current none ps = ps
current (some key) ps = others key ps

module _ (limits : QueueLimits) where
  unfoldable pub offer : List Packet → Packet → Result SendError SendReport × List Packet
  offer queued packet =
      let kept = current packet.supersession_key queued in
      if ltb limits.max_packet_bytes (packet_len packet)
      then (err (packet_too_large packet (packet_len packet) limits.max_packet_bytes), queued)
      else if ltb limits.max_packets (length kept + 1)
          || ltb limits.max_queued_bytes (total kept + packet_len packet)
      then (err (full packet (occupancy queued) limits), queued)
      else (
        ok (record { superseded = occupancy (obsolete packet.supersession_key queued) }),
        kept ++ (packet ∷ []),
      )

unfoldable pub take_oldest : List Packet → Option Packet × List Packet
take_oldest [] = (none, [])
take_oldest (p ∷ ps) = (some p, ps)
