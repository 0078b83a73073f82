-- ===== src/Transport/Queue.antt =====
-- crates/ladoflow-transport/src/loopback.rs, `BoundedQueue`: one lane of a link. A method that
-- changes the queue returns its answer beside the new queue.
pub mod Counted
pub mod Spec
pub mod Order
use lado_flow.Base.{
  ℕ, ◌+◌, ◌-◌, ◌==◌, ◌||◌, Bool, false, not, Option, none, some, List, [], ◌∷◌, ◌++◌, ltb, leb,
  if◌then◌else◌, length, Result, ok, err,
}
use lado_flow.Transport.Packet.{
  Packet, packet_len, QueueLimits, QueueDepth, no_depth, saturating_add, SendReport, SendError,
  full, packet_too_large,
}

pub record BoundedQueue : Type 0 where
  pub limits : QueueLimits
  pub packets : List Packet
  pub queued_bytes : ℕ

abbrev pub new_queue : QueueLimits → BoundedQueue
new_queue limits = record { limits = limits; packets = []; queued_bytes = 0 }

-- `queued.supersession_key() == Some(key)`.
abbrev pub has_key : ℕ → Option ℕ → Bool
has_key key none = false
has_key key (some other) = other == key

-- The loop of `superseded_by` over the packets that are left.
unfoldable pub superseded_from : ℕ → QueueDepth → List Packet → QueueDepth
superseded_from key acc [] = acc
superseded_from key acc (p ∷ ps) =
    superseded_from key
      (if has_key key p.supersession_key
        then record {
          packets = saturating_add acc.packets 1;
          bytes = saturating_add acc.bytes (packet_len p);
        }
        else acc)
      ps

unfoldable pub superseded_by : List Packet → Option ℕ → QueueDepth
unfolding superseded_from
superseded_by packets none = no_depth
superseded_by packets (some key) = superseded_from key no_depth packets

-- `packets.retain(|queued| queued.supersession_key() != Some(key))`.
unfoldable pub without_key : ℕ → List Packet → List Packet
without_key key [] = []
without_key key (p ∷ ps) =
    if has_key key p.supersession_key then without_key key ps else p ∷ without_key key ps

unfoldable pub retain_other : Option ℕ → List Packet → List Packet
unfolding without_key
retain_other none packets = packets
retain_other (some key) packets = without_key key packets

abbrev pub depth : BoundedQueue → QueueDepth
depth q = record { packets = length q.packets; bytes = q.queued_bytes }

-- `packet_size > self.limits.max_packet_bytes()`.
abbrev pub too_large : BoundedQueue → Packet → Bool
too_large q packet = ltb q.limits.max_packet_bytes (packet_len packet)

-- `packet_slots_full || byte_capacity_full`, where the obsolete packets do not count.
abbrev pub is_full : BoundedQueue → Packet → Bool
is_full q packet =
    let superseded = superseded_by q.packets packet.supersession_key in
    leb q.limits.max_packets (length q.packets - superseded.packets)
    || ltb (q.limits.max_queued_bytes - (q.queued_bytes - superseded.bytes)) (packet_len packet)

unfoldable pub try_push : BoundedQueue → Packet → Result SendError SendReport × BoundedQueue
unfolding superseded_by retain_other
try_push q packet =
    let superseded = superseded_by q.packets packet.supersession_key in
    if too_large q packet
    then (err (packet_too_large packet (packet_len packet) q.limits.max_packet_bytes), q)
    else if is_full q packet
    then (err (full packet (depth q) q.limits), q)
    else (
      ok (record { superseded = superseded }),
      record q {
        packets = retain_other packet.supersession_key q.packets ++ (packet ∷ []);
        queued_bytes = q.queued_bytes - superseded.bytes + packet_len packet;
      },
    )

-- `pop_front`, by cases on the packets.
pop_from : BoundedQueue → List Packet → Option Packet × BoundedQueue
pop_from q [] = (none, q)
pop_from q (p ∷ ps) =
    (some p, record q { packets = ps; queued_bytes = q.queued_bytes - packet_len p })

unfoldable pub pop : BoundedQueue → Option Packet × BoundedQueue
unfolding pop_from
pop q = pop_from q q.packets

unfoldable pub clear : BoundedQueue → QueueDepth × BoundedQueue
clear q = (depth q, record q { packets = []; queued_bytes = 0 })
