-- ===== src/Transport/Stream/Delivery.antt =====
-- The mux over an endpoint of the loopback link.
use lado_flow.Base.{ℕ, ◌+◌, ◌<◌, ◌≡◌, refl, ap, ◌∙◌, arith, true, List, [], ◌∷◌, length, ok}
use lado_flow.Transport.Packet.{Channel, control, media, Packet}
use lado_flow.Transport.Queue.{BoundedQueue, pop}
use lado_flow.Transport.Loopback.{
  Side, other, Link, Direction, pop_channel, outgoing, set_outgoing, try_receive, endpoint,
}
use lado_flow.Transport.Loopback.Accounts.{under_way, packets_in}
use lado_flow.Transport.Stream.{new_mux, drain}
use lado_flow.Transport.Stream.Items.{Item, packets, Ascending, Apart, Merged}
use lado_flow.Transport.Stream.Merge.{Delivers, first_of, rest_of, drain-Merged}

-- What a receive at a connected link does to the direction that it reads.
record Popped (ch : Channel) (d : Direction) : Type 0 where
  answer : (pop_channel ch d).0 ≡ first_of (packets_in ch d)
  rest : packets_in ch (pop_channel ch d).1 ≡ rest_of (packets_in ch d)

pop_first :
    (q : BoundedQueue) (ps : List Packet)
    → q.packets ≡ ps
    → ((pop q).0 ≡ first_of ps) × ((pop q).1.packets ≡ rest_of ps)
unfolding pop
pop_first q [] e = (rw (e, pop) refl, ground (arith))
pop_first q (p ∷ ps) e = (rw (e, pop) refl, ground (arith))

pop_channel-Popped : (ch : Channel) (d : Direction) → Popped ch d
unfolding pop_channel
pop_channel-Popped Channel.control d =
    let p = pop_first d.control d.control.packets refl in record { answer = p.0; rest = p.1 }
pop_channel-Popped Channel.media d =
    let p = pop_first d.media d.media.packets refl in record { answer = p.0; rest = p.1 }

pop_other :
    (d : Direction)
    → (packets_in control (pop_channel media d).1 ≡ packets_in control d)
      × (packets_in media (pop_channel control d).1 ≡ packets_in media d)
unfolding pop_channel
pop_other d = (refl, refl)

try_receive_connected :
    (side : Side) (l : Link) (ch : Channel)
    → l.connected ≡ true
    → let (r, d) = pop_channel ch (outgoing (other side) l) in
      try_receive side l ch ≡ (ok r, set_outgoing (other side) l d)
unfolding try_receive
try_receive_connected side l ch u = ground arith

under_way-set_outgoing :
    (t : Side) (ch : Channel) (l : Link) (d : Direction)
    → (under_way t ch (set_outgoing t l d) ≡ packets_in ch d)
      × ((set_outgoing t l d).connected ≡ l.connected)
unfolding outgoing set_outgoing
under_way-set_outgoing Side.first ch l d = (refl, refl)
under_way-set_outgoing Side.second ch l d = (refl, refl)

module _ (side : Side) where
  -- The packets that a receive at this side finds.
  abbrev pub arriving : Channel → Link → List Packet
  arriving ch l = under_way (other side) ch l

  abbrev pub IsConnected : Link → Type 0
  IsConnected l = l.connected ≡ true

  arriving-try_receive :
      (l : Link) (c ch : Channel)
      → IsConnected l
      → arriving c (try_receive side l ch).1
        ≡ packets_in c (pop_channel ch (outgoing (other side) l)).1
  arriving-try_receive l c ch u =
      ap (λ r. arriving c r.1) (try_receive_connected side l ch u)
      ∙ (under_way-set_outgoing (other side) c l _).0

  pub endpoint-Delivers : Delivers (endpoint side) arriving IsConnected
  endpoint-Delivers = record {
    answers = λ l ch u.
        ap (λ r. r.0) (try_receive_connected side l ch u)
        ∙ ap ok (pop_channel-Popped ch (outgoing (other side) l)).answer;
    leaves = λ l ch u.
        arriving-try_receive l ch ch u ∙ (pop_channel-Popped ch (outgoing (other side) l)).rest;
    control_stays =
        λ l u. arriving-try_receive l control media u ∙ (pop_other (outgoing (other side) l)).0;
    media_stays =
        λ l u. arriving-try_receive l media control u ∙ (pop_other (outgoing (other side) l)).1;
    stays_up = λ l ch u.
        ap (λ r. r.1.connected) (try_receive_connected side l ch u)
        ∙ (under_way-set_outgoing (other side) ch l _).1
        ∙ u;
  }

  -- At one end of a connected link whose two lanes towards it carry packets with ascending sequence
  -- numbers that the lanes do not share, repeated calls of the mux, with more fuel than packets,
  -- return the packets of both lanes merged in ascending order.
  pub drain-endpoint :
      (l : Link) (xs ys : List Item) (fuel : ℕ)
      → l.connected ≡ true
      → arriving control l ≡ packets xs
      → arriving media l ≡ packets ys
      → Ascending xs
      → Ascending ys
      → Apart xs ys
      → length xs + length ys < fuel
      → Merged xs ys (drain (endpoint side) fuel new_mux l)
  drain-endpoint l xs ys fuel u p q a b c h =
      drain-Merged (endpoint side) arriving IsConnected endpoint-Delivers fuel xs ys new_mux l u p q
        a b c h
