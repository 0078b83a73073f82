-- ===== src/Transport/Loopback/Refine.antt =====
-- The link against its contract.
use lado_flow.Base.{◌≡◌, refl, arith, true, Option, none, some, List, [], ◌∷◌, ◌⊎◌, if◌then◌else◌}
use lado_flow.Transport.Packet.{Channel, Packet}
use lado_flow.Transport.Queue.Counted.{
  IsBounded, IsCounted, try_push-offer, pop-take_oldest, new_queue-IsCounted, clear-occupancy,
}
use lado_flow.Transport.Queue.Spec.{offer, take_oldest}
use lado_flow.Transport.Loopback.{
  LoopbackConfig, Side, Direction, push_channel, pop_channel, clear_direction, Link, loopback_pair,
  outgoing, set_outgoing, clear_link, try_send, try_receive, disconnect, reconnect,
  connection_state, Call, send, receive, state, disconnecting, reconnecting, perform, replies,
}
use lado_flow.Transport.Loopback.Spec.{
  Lanes, Wires, no_wires, lane, set_lane, from_side, set_from, lane_limits, step, run,
}

abbrev lanes : Direction → Lanes
lanes d = record { control = d.control.packets; media = d.media.packets }

abbrev wires : Link → Wires
wires l = record {
  first_to_second = lanes l.first_to_second;
  second_to_first = lanes l.second_to_first;
}

-- What the contract sees of a link.
abbrev pub view : Link → Option Wires
view l = if l.connected then some (wires l) else none

pub record IsDirection (c : LoopbackConfig) (d : Direction) : Type 0 where
  pub control : IsCounted c.control d.control
  pub media : IsCounted c.media d.media

-- The lanes count their bytes, and a link that is down holds nothing.
pub record IsLink (c : LoopbackConfig) (l : Link) : Type 0 where
  pub forth : IsDirection c l.first_to_second
  pub back : IsDirection c l.second_to_first
  pub quiet : (l.connected ≡ true) ⊎ (wires l ≡ no_wires)

pub record IsConfig (c : LoopbackConfig) : Type 0 where
  pub control : IsBounded c.control
  pub media : IsBounded c.media

module _ {c : LoopbackConfig} (b : IsConfig c) where
  push_channel-offer :
      {d : Direction} (ch : Channel) (p : Packet)
      → IsDirection c d
      → let (r, d') = push_channel ch d p in
        let (r', ps) = offer (lane_limits ch c) (lane ch (lanes d)) p in
        (r ≡ r') × (lanes d' ≡ set_lane ch (lanes d) ps) × IsDirection c d'
  unfolding push_channel lane set_lane lane_limits
  push_channel-offer Channel.control p v = ground (arith, try_push-offer b.control v.control p)
  push_channel-offer Channel.media p v = ground (arith, try_push-offer b.media v.media p)

  pop_channel-take_oldest :
      {d : Direction} (ch : Channel)
      → IsDirection c d
      → let (r, d') = pop_channel ch d in
        let (r', ps) = take_oldest (lane ch (lanes d)) in
        (r ≡ r') × (lanes d' ≡ set_lane ch (lanes d) ps) × IsDirection c d'
  unfolding pop_channel lane set_lane
  pop_channel-take_oldest Channel.control v = ground (arith, pop-take_oldest b.control v.control)
  pop_channel-take_oldest Channel.media v = ground (arith, pop-take_oldest b.media v.media)

  -- Each call answers as the contract does, and leaves the link at the contract's next state.
  pub perform-step :
      {l : Link} (k : Call)
      → IsLink c l
      → let (r, l') = perform k l in ((r, view l') ≡ step c k (view l)) × IsLink c l'
  unfolding perform step try_send try_receive disconnect reconnect connection_state outgoing
      set_outgoing from_side set_from clear_link clear_direction
  perform-step {l} (send Side.first p) v = ground (arith, push_channel-offer p.channel p v.forth)
  perform-step {l} (send Side.second p) v = ground (arith, push_channel-offer p.channel p v.back)
  perform-step {l} (receive Side.first ch) v = ground (arith, pop_channel-take_oldest ch v.back)
  perform-step {l} (receive Side.second ch) v = ground (arith, pop_channel-take_oldest ch v.forth)
  perform-step {l} state v = ground arith
  perform-step {l} disconnecting v = ground (
    arith,
    clear-occupancy v.forth.control,
    clear-occupancy v.forth.media,
    clear-occupancy v.back.control,
    clear-occupancy v.back.media,
  )
  perform-step {l} reconnecting v = ground (
    arith,
    clear-occupancy v.forth.control,
    clear-occupancy v.forth.media,
    clear-occupancy v.back.control,
    clear-occupancy v.back.media,
  )

  view_run : (ks : List Call) {l : Link} → IsLink c l → replies ks l ≡ run c ks (view l)
  unfolding replies run
  view_run [] v = refl
  view_run (k ∷ ks) v = let (e, v') = perform-step k v in rw (view_run ks v', ← e)

  loopback_pair-IsLink : IsLink c (loopback_pair c)
  loopback_pair-IsLink = ground (arith, new_queue-IsCounted c.control, new_queue-IsCounted c.media)

  -- For limits within a usize (IsConfig), no list of sends, receives, state queries, disconnects
  -- and reconnects at the two sides tells a new link from its contract: while connected, four FIFOs
  -- with bounds where a packet that is taken replaces the queued ones of its key, and nothing at
  -- all while not.
  pub replies-run : (ks : List Call) → replies ks (loopback_pair c) ≡ run c ks (some no_wires)
  replies-run ks = view_run ks loopback_pair-IsLink
