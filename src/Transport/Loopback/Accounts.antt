-- ===== src/Transport/Loopback/Accounts.antt =====
-- What a list of calls accepts into a lane of the link and hands out of it.
use lado_flow.Base.{Bool, true, false, ◌&&◌, List, [], ◌∷◌, ◌++◌, if◌then◌else◌, ok}
use lado_flow.Transport.Packet.{Channel, Packet}
use lado_flow.Transport.Queue.Order.{entered, left}
use lado_flow.Transport.Loopback.{
  Side, other, Link, Direction, outgoing, Call, send, receive, disconnecting, Reply, sent, received,
  perform,
}

abbrev pub same_side : Side → Side → Bool
same_side Side.first Side.first = true
same_side Side.second Side.second = true
same_side s t = false

abbrev pub same_channel : Channel → Channel → Bool
same_channel Channel.control Channel.control = true
same_channel Channel.media Channel.media = true
same_channel s t = false

abbrev pub packets_in : Channel → Direction → List Packet
packets_in Channel.control d = d.control.packets
packets_in Channel.media d = d.media.packets

-- The packets of one channel that are under way from a side.
abbrev pub under_way : Side → Channel → Link → List Packet
under_way s ch l = packets_in ch (outgoing s l)

-- What a call accepted into the lane, and what it handed out of it.
abbrev pub taken : Side → Channel → Call → Reply → List Packet
taken s ch (send t p) (sent r) =
    if same_side s t && same_channel ch p.channel then entered p r else []
taken s ch k r = []

abbrev pub given : Side → Channel → Call → Reply → List Packet
given s ch (receive t c) (received (ok r)) =
    if same_side s (other t) && same_channel ch c then left r else []
given s ch k r = []

-- Over a list of calls.
unfoldable pub accepted : Side → Channel → List Call → Link → List Packet
accepted s ch [] l = []
accepted s ch (k ∷ ks) l = let (r, l') = perform k l in taken s ch k r ++ accepted s ch ks l'

unfoldable pub delivered : Side → Channel → List Call → Link → List Packet
delivered s ch [] l = []
delivered s ch (k ∷ ks) l = let (r, l') = perform k l in given s ch k r ++ delivered s ch ks l'

unfoldable pub after : List Call → Link → Link
after [] l = l
after (k ∷ ks) l = after ks (perform k l).1

-- A call other than a disconnect.
abbrev pub stays_up : Call → Bool
stays_up disconnecting = false
stays_up k = true
