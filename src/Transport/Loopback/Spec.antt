-- ===== src/Transport/Loopback/Spec.antt =====
-- The contract of the loopback link: while connected, four FIFOs with no counters; while not,
-- nothing at all.
use lado_flow.Base.{Bool, true, false, Option, none, some, List, [], ◌∷◌, ok, err}
use lado_flow.Transport.Packet.{
  Channel, Packet, ConnectionState, QueueLimits, add_depth, SendError, ReceiveError,
}
use lado_flow.Transport.Queue.Spec.{occupancy, offer, take_oldest}
use lado_flow.Transport.Loopback.{
  LoopbackConfig, DisconnectReport, Side, other, Call, send, receive, state, disconnecting,
  reconnecting, Reply, sent, received, is_in, cut, joined,
}

-- The packets under way to one side.
pub record Lanes : Type 0 where
  pub control : List Packet
  pub media : List Packet

pub record Wires : Type 0 where
  pub first_to_second : Lanes
  pub second_to_first : Lanes

abbrev pub no_lanes : Lanes
no_lanes = record { control = []; media = [] }

abbrev pub no_wires : Wires
no_wires = record { first_to_second = no_lanes; second_to_first = no_lanes }

unfoldable pub lane : Channel → Lanes → List Packet
lane Channel.control l = l.control
lane Channel.media l = l.media

unfoldable pub set_lane : Channel → Lanes → List Packet → Lanes
set_lane Channel.control l ps = record l { control = ps }
set_lane Channel.media l ps = record l { media = ps }

unfoldable pub from_side : Side → Wires → Lanes
from_side Side.first w = w.first_to_second
from_side Side.second w = w.second_to_first

unfoldable pub set_from : Side → Wires → Lanes → Wires
set_from Side.first w l = record w { first_to_second = l }
set_from Side.second w l = record w { second_to_first = l }

unfoldable pub lane_limits : Channel → LoopbackConfig → QueueLimits
lane_limits Channel.control c = c.control
lane_limits Channel.media c = c.media

abbrev pub discarded : Bool → Wires → DisconnectReport
discarded was w = record {
  was_connected = was;
  control = add_depth (occupancy w.first_to_second.control) (occupancy w.second_to_first.control);
  media = add_depth (occupancy w.first_to_second.media) (occupancy w.second_to_first.media);
}

module _ (c : LoopbackConfig) where
  unfoldable pub step : Call → Option Wires → Reply × Option Wires
  unfolding lane set_lane from_side set_from lane_limits
  step (send side p) none = (sent (err (SendError.disconnected p)), none)
  step (send side p) (some w) =
      let l = from_side side w in
      let (r, ps) = offer (lane_limits p.channel c) (lane p.channel l) p in
      (sent r, some (set_from side w (set_lane p.channel l ps)))
  step (receive side ch) none = (received (err ReceiveError.disconnected), none)
  step (receive side ch) (some w) =
      let l = from_side (other side) w in
      let (r, ps) = take_oldest (lane ch l) in
      (received (ok r), some (set_from (other side) w (set_lane ch l ps)))
  step state none = (is_in ConnectionState.disconnected, none)
  step state (some w) = (is_in ConnectionState.connected, some w)
  step disconnecting none = (cut (discarded false no_wires), none)
  step disconnecting (some w) = (cut (discarded true w), none)
  step reconnecting none = (joined true, some no_wires)
  step reconnecting (some w) = (joined false, some w)

  unfoldable pub run : List Call → Option Wires → List Reply
  unfolding step
  run [] w = []
  run (k ∷ ks) w = let (r, w') = step k w in r ∷ run ks w'
