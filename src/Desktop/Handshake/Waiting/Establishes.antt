-- ===== src/Desktop/Handshake/Waiting/Establishes.antt =====
-- The exchange that comes to its end: what the transport answers, and what the host then returns.
use lado_flow.Base.{
  ℕ, zero, suc, ◌+◌, ◌≤◌, ◌<◌, ◌^◌, ◌≡◌, refl, ap, ◌∙◌, arith, Bool, not, ◌==◌, guard, Option, none,
  some, List, [], ◌∷◌, Result, ok,
}
use lado_flow.Protocol.Message.{Hello, Capabilities}
use lado_flow.Protocol.Message.Handshake.{IsHello}
use lado_flow.Protocol.Message.Offer.{IsOffer}
use lado_flow.Protocol.Display.{DisplayConfig, display_config_payload}
use lado_flow.Core.Negotiation.{NegotiatedSession, negotiate}
use lado_flow.Transport.Packet.{
  Channel, Packet, SendError, SendReport, ReceiveError, PacketTransport,
}
use lado_flow.Desktop.Modes.{HostProtocolConfig, select_display_config}
use lado_flow.Desktop.Handshake.{
  HandshakeError, zero_timeout, EstablishedHostSession, HostHandshake, with_nonce, payload_packet,
  initial_packets, accept,
}
use lado_flow.Desktop.Handshake.Exchange.{
  AreOpening, accept_both, established, accept_both-established,
}
use lado_flow.Desktop.Handshake.Waiting.Steps.{
  at, Sends, taken, retried, Hears, silence, final, heard, Sends-checks, Hears-checks,
  Hears-packets,
}
use lado_flow.Desktop.Handshake.Waiting.{
  Waiting, Wait, bind_wait, new_handshake, wait_result, check_wait, sent, send_reliable_control,
  confirm, handled, arrived, negotiate_loop, negotiate_host_transport,
}

bind_pure :
    {S A B : Type 0} (f : A → Wait S B) {r : Result HandshakeError A} {a : A} {w : Waiting S}
    → r ≡ ok a
    → bind_wait f (some (r, w)) ≡ f a w
bind_pure f {w} e = ap (λ r. bind_wait f (some (r, w))) e

nonzero_timeout : (timeout : ℕ) → 0 < timeout → guard (not (timeout == 0)) zero_timeout ≡ ok tt
nonzero_timeout timeout positive = ground arith

module _ {S : Type 0} (t : PacketTransport S) (meanwhile : ℕ → S → S) (cancel : ℕ → Bool)
    (now : ℕ → ℕ) (deadline last : ℕ)
    (free : (i : ℕ) → i < last → wait_result t meanwhile cancel now deadline i ≡ ok tt) where
  check_wait-free :
      {A : Type 0} (f : Wait S A) (n : ℕ) (s : S)
      → n < last
      → bind_wait (λ _. f) (check_wait t meanwhile cancel now deadline (at n s))
        ≡ f (at (n + 1) (meanwhile n s))
  unfolding check_wait
  check_wait-free f n s less = rw (free n less) refl

  send-taken :
      (fuel : ℕ) {n m : ℕ} {s s' : S} {p : Packet}
      → Sends t meanwhile n s p m s'
      → m ≤ last
      → m ≤ n + fuel
      → send_reliable_control t meanwhile cancel now fuel deadline p (at n s)
        ≡ some (ok tt, at m s')
  unfolding send_reliable_control
  send-taken zero sends le enough = absurd (omega (arith, Sends-checks sends))
  send-taken (suc fuel) {n} {s} (taken e) le enough =
      check_wait-free _ n s (omega arith)
      ∙ ap
          (λ (a : Result SendError SendReport × S).
            sent t meanwhile cancel now (send_reliable_control t meanwhile cancel now fuel deadline)
              a.0 (at (n + 1) a.1))
          e
  send-taken (suc fuel) {n} {s} (retried e more) le enough =
      check_wait-free _ n s (omega (arith, Sends-checks more))
      ∙ ap
          (λ (a : Result SendError SendReport × S).
            sent t meanwhile cancel now (send_reliable_control t meanwhile cancel now fuel deadline)
              a.0 (at (n + 1) a.1))
          e
      ∙ send-taken fuel more le (omega arith)

  confirm-taken :
      (fuel : ℕ) {n m : ℕ} {s s' : S} {p : Packet} (e : EstablishedHostSession)
      → payload_packet 2 e.display_config ≡ ok p
      → Sends t meanwhile n s p m s'
      → m ≤ last
      → m ≤ n + fuel
      → confirm t meanwhile cancel now fuel deadline e (at n s) ≡ some (ok e, at m s')
  unfolding confirm
  confirm-taken fuel e made sends le enough = rw made (rw (send-taken fuel sends le enough) refl)

  -- A check that finds nothing, and one that finds a packet.
  loop-silence :
      (fuel : ℕ) (h : HostHandshake) {n : ℕ} {s s' : S}
      → n < last
      → t.try_receive (meanwhile n s) Channel.control ≡ (ok none, s')
      → negotiate_loop t meanwhile cancel now (suc fuel) deadline h (at n s)
        ≡ negotiate_loop t meanwhile cancel now fuel deadline h (at (n + 1) s')
  unfolding negotiate_loop
  loop-silence fuel h {n} {s} less e =
      check_wait-free _ n s less
      ∙ ap
          (λ (a : Result ReceiveError (Option Packet) × S).
            arrived t meanwhile cancel now (negotiate_loop t meanwhile cancel now fuel deadline)
              (confirm t meanwhile cancel now fuel deadline) h a.0 (at (n + 1) a.1))
          e

  loop-heard :
      (fuel : ℕ) (h : HostHandshake) {n : ℕ} {s s' : S} {p : Packet}
      → n < last
      → t.try_receive (meanwhile n s) Channel.control ≡ (ok (some p), s')
      → negotiate_loop t meanwhile cancel now (suc fuel) deadline h (at n s)
        ≡ handled t meanwhile cancel now
            (negotiate_loop t meanwhile cancel now fuel deadline)
            (confirm t meanwhile cancel now fuel deadline)
            (accept h p)
            (at (n + 1) s')
  unfolding negotiate_loop
  loop-heard fuel h {n} {s} less e =
      check_wait-free _ n s less
      ∙ ap
          (λ (a : Result ReceiveError (Option Packet) × S).
            arrived t meanwhile cancel now (negotiate_loop t meanwhile cancel now fuel deadline)
              (confirm t meanwhile cancel now fuel deadline) h a.0 (at (n + 1) a.1))
          e

  handled-none :
      (again : HostHandshake → Wait S EstablishedHostSession)
      (finish : EstablishedHostSession → Wait S EstablishedHostSession)
      (r : Result HandshakeError (Option EstablishedHostSession) × HostHandshake) (w : Waiting S)
      → r.0 ≡ ok none
      → handled t meanwhile cancel now again finish r w ≡ again r.1 w
  handled-none again finish (a, h) w e =
      ap (λ x. handled t meanwhile cancel now again finish (x, h) w) e

  handled-some :
      (again : HostHandshake → Wait S EstablishedHostSession)
      (finish : EstablishedHostSession → Wait S EstablishedHostSession)
      (r : Result HandshakeError (Option EstablishedHostSession) × HostHandshake) (w : Waiting S)
      (made : EstablishedHostSession)
      → r.0 ≡ ok (some made)
      → handled t meanwhile cancel now again finish r w ≡ finish made w
  handled-some again finish (a, h) w made e =
      ap (λ x. handled t meanwhile cancel now again finish (x, h) w) e

  module _ (e : EstablishedHostSession) (answer : Packet)
      (framed : payload_packet 2 e.display_config ≡ ok answer) where
    loop-last :
        (fuel : ℕ) (h : HostHandshake) {n m k : ℕ} {s s' s'' : S} {q : Packet}
        → Hears t meanwhile n s (q ∷ []) m s'
        → Sends t meanwhile m s' answer k s''
        → k ≤ last
        → k ≤ n + fuel
        → (accept h q).0 ≡ ok (some e)
        → negotiate_loop t meanwhile cancel now fuel deadline h (at n s) ≡ some (ok e, at k s'')
    loop-last zero h hears sends le enough a =
        absurd (omega (arith, Hears-checks hears, Sends-checks sends))
    loop-last (suc fuel) h (silence r more) sends le enough a =
        loop-silence fuel h (omega (arith, Hears-checks more, Sends-checks sends)) r
        ∙ loop-last fuel h more sends le (omega arith) a
    loop-last (suc fuel) h {q} (final r) sends le enough a =
        loop-heard fuel h (omega (arith, Sends-checks sends)) r
        ∙ handled-some _ _ (accept h q) _ e a
        ∙ confirm-taken fuel e framed sends le (omega arith)
    loop-last (suc fuel) h (heard r more) sends le enough a = absurd (Hears-packets more)

    loop-both :
        (fuel : ℕ) (h : HostHandshake) {n m k : ℕ} {s s' s'' : S} {p q : Packet}
        → Hears t meanwhile n s (p ∷ q ∷ []) m s'
        → Sends t meanwhile m s' answer k s''
        → k ≤ last
        → k ≤ n + fuel
        → accept_both h p q ≡ (ok none, ok (some e))
        → negotiate_loop t meanwhile cancel now fuel deadline h (at n s) ≡ some (ok e, at k s'')
    loop-both zero h hears sends le enough a =
        absurd (omega (arith, Hears-checks hears, Sends-checks sends))
    loop-both (suc fuel) h (silence r more) sends le enough a =
        loop-silence fuel h (omega (arith, Hears-checks more, Sends-checks sends)) r
        ∙ loop-both fuel h more sends le (omega arith) a
    loop-both (suc fuel) h {p} (heard r more) sends le enough a =
        loop-heard fuel h (omega (arith, Hears-checks more, Sends-checks sends)) r
        ∙ handled-none _ _ (accept h p) _ (ap (λ x. x.0) a)
        ∙ loop-last fuel (accept h p).1 more sends le (omega arith) (ap (λ x. x.1) a)

  module _ (fuel : ℕ) (enough : last ≤ fuel) where
    -- The two packets of the host, and the wait for the display's.
    opening_taken :
        (h : HostHandshake) (e : EstablishedHostSession) (p0 p1 p q answer : Packet) (n1 n2 n3 : ℕ)
        (s0 s1 s2 s3 s4 : S)
        → Sends t meanwhile 0 s0 p0 n1 s1
        → Sends t meanwhile n1 s1 p1 n2 s2
        → Hears t meanwhile n2 s2 (p ∷ q ∷ []) n3 s3
        → payload_packet 2 e.display_config ≡ ok answer
        → Sends t meanwhile n3 s3 answer last s4
        → accept_both h p q ≡ (ok none, ok (some e))
        → bind_wait
            (λ _ w.
              bind_wait
                (λ _. negotiate_loop t meanwhile cancel now fuel deadline h)
                (send_reliable_control t meanwhile cancel now fuel deadline p1 w))
            (send_reliable_control t meanwhile cancel now fuel deadline p0 (at 0 s0))
          ≡ some (ok e, at last s4)
    opening_taken h e p0 p1 p q answer n1 n2 n3 s0 s1 s2 s3 s4 one two hears framed three a =
        let second : n2 ≤ last = omega (arith, Sends-checks three, Hears-checks hears) in
        let first : n1 ≤ last =
          omega (arith, Sends-checks three, Hears-checks hears, Sends-checks two) in
        rw (send-taken fuel one first (omega (arith, first))) (
          rw (send-taken fuel two second (omega (arith, second)))
            (loop-both e answer framed fuel h hears three (omega arith) (omega arith) a))

-- Over any transport: where it takes the two opening packets of a new host handshake, each perhaps
-- after refusals for a full queue, then hands out, after any empty reads, the hello and the offer
-- of a display that meet IsHello and IsOffer, in either order and with ascending u64 sequence
-- numbers, for which negotiation and the choice of a mode succeed, and then takes the configuration
-- packet, a nonzero timeout, no refusal by a check of that time and fuel for its checks make the
-- whole exchange of the host return the established session, at the last check, with the transport
-- as the last send left it.
pub negotiate_host_transport-established :
    {S : Type 0} (t : PacketTransport S) (meanwhile : ℕ → S → S) (cancel : ℕ → Bool) (now : ℕ → ℕ)
    (config : HostProtocolConfig) (nonce : List ℕ) (h : HostHandshake) (k : Hello)
    (c : Capabilities) (g : NegotiatedSession) (plan : DisplayConfig) (n m : ℕ)
    (p0 p1 p q answer : Packet) (started timeout fuel n1 n2 n3 n4 : ℕ) (s0 s1 s2 s3 s4 : S)
    → with_nonce config nonce ≡ ok h
    → initial_packets h ≡ ok (p0, p1)
    → IsHello k
    → IsOffer c
    → n < m
    → m < 2 ^ 64
    → negotiate h.host_hello h.host_capabilities k c ≡ ok g
    → select_display_config config g ≡ ok plan
    → AreOpening k c n m p q
    → payload_packet 2 plan ≡ ok answer
    → Sends t meanwhile 0 s0 p0 n1 s1
    → Sends t meanwhile n1 s1 p1 n2 s2
    → Hears t meanwhile n2 s2 (p ∷ q ∷ []) n3 s3
    → Sends t meanwhile n3 s3 answer n4 s4
    → 0 < timeout
    → ((i : ℕ) → i < n4 → wait_result t meanwhile cancel now (started + timeout) i ≡ ok tt)
    → n4 ≤ fuel
    → negotiate_host_transport t meanwhile cancel now fuel started config
        (some nonce)
        timeout
        (record { checks = 0; link = s0 })
      ≡ some (ok (established k g plan m), record { checks = n4; link = s4 })
unfolding negotiate_host_transport new_handshake
negotiate_host_transport-established t meanwhile cancel now config nonce h k c g plan n m p0 p1 p q
      answer started timeout fuel n1 n2 n3 n4 s0 s1 s2 s3 s4 made initial v w less top agreed
      planned opening framed one two hears three positive free enough =
    bind_pure _ (nonzero_timeout timeout positive)
    ∙ bind_pure _ made
    ∙ bind_pure _ initial
    ∙ opening_taken t meanwhile cancel now (started + timeout) n4 free fuel enough h
        (established k g plan m) p0 p1 p q answer n1 n2 n3 s0 s1 s2 s3 s4 one two hears framed three
        (accept_both-established config nonce h k c g plan n m p q made v w less top agreed planned
          opening)
