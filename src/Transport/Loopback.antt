-- ===== src/Transport/Loopback.antt =====
-- crates/ladoflow-transport/src/loopback.rs: two endpoints over one link, which is two directions of
-- two lanes. An endpoint is its side and the link that both share: a method takes the link and
-- returns its answer beside the new one. A call holds the lock for its whole body, so an
-- interleaving of the two sides is a list of calls.
pub mod Spec
pub mod Refine
pub mod Accounts
pub mod Order
mod Examples
use lado_flow.Base.{Bool, true, false, Option, List, [], ◌∷◌, if◌then◌else◌, Result, ok, err}
use lado_flow.Transport.Packet.{
  Channel, Packet, ConnectionState, QueueLimits, QueueDepth, add_depth, SendReport, SendError,
  ReceiveError, PacketTransport,
}
use lado_flow.Transport.Queue
use lado_flow.Transport.Queue.{BoundedQueue, new_queue}

pub record LoopbackConfig : Type 0 where
  pub control : QueueLimits
  pub media : QueueLimits

-- `LoopbackConfig::default()`.
abbrev pub default_config : LoopbackConfig
default_config = record {
  control = record { max_packets = 64; max_queued_bytes = 4194304; max_packet_bytes = 65536 };
  media = record { max_packets = 3; max_queued_bytes = 33554432; max_packet_bytes = 16777216 };
}

pub record DisconnectReport : Type 0 where
  pub was_connected : Bool
  pub control : QueueDepth
  pub media : QueueDepth

pub data Side : Type 0 where
  first second : Side

pub record Direction : Type 0 where
  pub control : BoundedQueue
  pub media : BoundedQueue

abbrev pub new_direction : LoopbackConfig → Direction
new_direction c = record { control = new_queue c.control; media = new_queue c.media }

-- `Direction::try_push`, by the packet's channel.
unfoldable pub push_channel : Channel → Direction → Packet → Result SendError SendReport × Direction
push_channel Channel.control d packet =
    let (r, q) = Queue.try_push d.control packet in (r, record d { control = q })
push_channel Channel.media d packet =
    let (r, q) = Queue.try_push d.media packet in (r, record d { media = q })

unfoldable pub pop_channel : Channel → Direction → Option Packet × Direction
pop_channel Channel.control d = let (r, q) = Queue.pop d.control in (r, record d { control = q })
pop_channel Channel.media d = let (r, q) = Queue.pop d.media in (r, record d { media = q })

pub record ClearedQueues : Type 0 where
  pub control : QueueDepth
  pub media : QueueDepth

abbrev pub add_cleared : ClearedQueues → ClearedQueues → ClearedQueues
add_cleared a b = record {
  control = add_depth a.control b.control;
  media = add_depth a.media b.media;
}

unfoldable pub clear_direction : Direction → ClearedQueues × Direction
clear_direction d =
    let (control, control') = Queue.clear d.control in
    let (media, media') = Queue.clear d.media in
    (record { control = control; media = media }, record { control = control'; media = media' })

pub record Link : Type 0 where
  pub connected : Bool
  pub first_to_second : Direction
  pub second_to_first : Direction

-- `loopback_pair`, whose endpoints are the two sides of this link.
abbrev pub loopback_pair : LoopbackConfig → Link
loopback_pair c = record {
  connected = true;
  first_to_second = new_direction c;
  second_to_first = new_direction c;
}

unfoldable pub outgoing : Side → Link → Direction
outgoing Side.first link = link.first_to_second
outgoing Side.second link = link.second_to_first

unfoldable pub set_outgoing : Side → Link → Direction → Link
set_outgoing Side.first link d = record link { first_to_second = d }
set_outgoing Side.second link d = record link { second_to_first = d }

-- What one side receives is what the other sends.
abbrev pub other : Side → Side
other Side.first = Side.second
other Side.second = Side.first

unfoldable pub clear_link : Link → ClearedQueues × Link
unfolding clear_direction
clear_link link =
    let (a, forth) = clear_direction link.first_to_second in
    let (b, back) = clear_direction link.second_to_first in
    (add_cleared a b, record link { first_to_second = forth; second_to_first = back })

unfoldable pub connection_state : Link → ConnectionState
connection_state link =
    if link.connected then ConnectionState.connected else ConnectionState.disconnected

unfoldable pub try_send : Side → Link → Packet → Result SendError SendReport × Link
unfolding push_channel outgoing set_outgoing
try_send side link packet =
    if link.connected
    then (let (r, d) = push_channel packet.channel (outgoing side link) packet in
        (r, set_outgoing side link d))
    else (err (SendError.disconnected packet), link)

unfoldable pub try_receive : Side → Link → Channel → Result ReceiveError (Option Packet) × Link
unfolding pop_channel outgoing set_outgoing
try_receive side link channel =
    if link.connected
    then (let (r, d) = pop_channel channel (outgoing (other side) link) in
        (ok r, set_outgoing (other side) link d))
    else (err ReceiveError.disconnected, link)

unfoldable pub disconnect : Link → DisconnectReport × Link
unfolding clear_link
disconnect link =
    let (discarded, link') = clear_link (record link { connected = false }) in
    (
      record {
        was_connected = link.connected;
        control = discarded.control;
        media = discarded.media;
      },
      link',
    )

unfoldable pub reconnect : Link → Bool × Link
unfolding clear_link
reconnect link =
    if link.connected
    then (false, link)
    else let (discarded, link') = clear_link link in (true, record link' { connected = true })

-- The trait, at either side.
abbrev pub endpoint : Side → PacketTransport Link
endpoint side = record {
  connection_state = connection_state;
  try_send = try_send side;
  try_receive = try_receive side;
}

-- The calls that a program makes of the two endpoints.
pub data Call : Type 0 where
  send : (side : Side) (packet : Packet) → Call
  receive : (side : Side) (channel : Channel) → Call
  state disconnecting reconnecting : Call

-- What a call answers.
pub data Reply : Type 0 where
  sent : Result SendError SendReport → Reply
  received : Result ReceiveError (Option Packet) → Reply
  is_in : ConnectionState → Reply
  cut : DisconnectReport → Reply
  joined : Bool → Reply

unfoldable pub perform : Call → Link → Reply × Link
unfolding try_send try_receive connection_state disconnect reconnect
perform (send side packet) link = let (r, link') = try_send side link packet in (sent r, link')
perform (receive side channel) link =
    let (r, link') = try_receive side link channel in (received r, link')
perform state link = (is_in (connection_state link), link)
perform disconnecting link = let (r, link') = disconnect link in (cut r, link')
perform reconnecting link = let (r, link') = reconnect link in (joined r, link')

-- The answers to a list of calls, in order.
unfoldable pub replies : List Call → Link → List Reply
unfolding perform
replies [] link = []
replies (c ∷ cs) link = let (r, link') = perform c link in r ∷ replies cs link'
