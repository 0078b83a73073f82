-- ===== src/Desktop/Handshake/Waiting/Steps.antt =====
-- What the transport does in the loops that wait, by the number of the check: a send with its
-- retries, and the reads that hand out a list of packets.
use lado_flow.Base.{ℕ, ◌+◌, ◌<◌, ◌≡◌, arith, none, some, List, [], ◌∷◌, ok, err}
use lado_flow.Transport.Packet.{
  Channel, Packet, QueueDepth, QueueLimits, SendError, SendReport, PacketTransport,
}
use lado_flow.Desktop.Handshake.Waiting.{Waiting}

-- A transport at a check number.
abbrev pub at : {S : Type 0} → ℕ → S → Waiting S
at n s = record { checks = n; link = s }

-- The transport refuses a packet for a full queue, some number of checks long, and then takes it.
pub data Sends {S : Type 0} (t : PacketTransport S) (meanwhile : ℕ → S → S)
    : ℕ → S → Packet → ℕ → S → Type 0 where
  taken :
      {n : ℕ} {s s' : S} {p : Packet} {report : SendReport}
      → t.try_send (meanwhile n s) p ≡ (ok report, s')
      → Sends t meanwhile n s p (n + 1) s'
  retried :
      {n m : ℕ} {s s' s'' : S} {p q : Packet} {depth : QueueDepth} {limits : QueueLimits}
      → t.try_send (meanwhile n s) p ≡ (err (SendError.full q depth limits), s')
      → Sends t meanwhile (n + 1) s' q m s''
      → Sends t meanwhile n s p m s''

-- The transport hands out packets on the control channel, after checks that find none.
pub data Hears {S : Type 0} (t : PacketTransport S) (meanwhile : ℕ → S → S)
    : ℕ → S → List Packet → ℕ → S → Type 0 where
  silence :
      {n m : ℕ} {s s' s'' : S} {ps : List Packet}
      → t.try_receive (meanwhile n s) Channel.control ≡ (ok none, s')
      → Hears t meanwhile (n + 1) s' ps m s''
      → Hears t meanwhile n s ps m s''
  final :
      {n : ℕ} {s s' : S} {p : Packet}
      → t.try_receive (meanwhile n s) Channel.control ≡ (ok (some p), s')
      → Hears t meanwhile n s (p ∷ []) (n + 1) s'
  heard :
      {n m : ℕ} {s s' s'' : S} {p : Packet} {ps : List Packet}
      → t.try_receive (meanwhile n s) Channel.control ≡ (ok (some p), s')
      → Hears t meanwhile (n + 1) s' ps m s''
      → Hears t meanwhile n s (p ∷ ps) m s''

pub Sends-checks :
    {S : Type 0} {t : PacketTransport S} {meanwhile : ℕ → S → S} {n m : ℕ} {s s' : S} {p : Packet}
    → Sends t meanwhile n s p m s'
    → n < m
Sends-checks (taken e) = omega arith
Sends-checks (retried e more) = omega (arith, Sends-checks more)

pub Hears-checks :
    {S : Type 0} {t : PacketTransport S} {meanwhile : ℕ → S → S} {n m : ℕ} {s s' : S}
    {ps : List Packet}
    → Hears t meanwhile n s ps m s'
    → n < m
Hears-checks (silence e more) = omega (arith, Hears-checks more)
Hears-checks (final e) = omega arith
Hears-checks (heard e more) = omega (arith, Hears-checks more)

-- No packet is heard in no packets.
pub Hears-packets :
    {S : Type 0} {t : PacketTransport S} {meanwhile : ℕ → S → S} {n m : ℕ} {s s' : S}
    → Hears t meanwhile n s [] m s'
    → ⊥
Hears-packets (silence e more) = Hears-packets more
