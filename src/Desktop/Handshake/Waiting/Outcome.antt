-- ===== src/Desktop/Handshake/Waiting/Outcome.antt =====
-- What a session that the loops return rests on: the run of the whole exchange.
use lado_flow.Base.{
  ℕ, zero, suc, ◌+◌, ◌≤◌, ◌<◌, ◌≡◌, arith, Bool, not, ◌==◌, guard, Option, none, some, List, length,
  ok, inl, inr, ltb, Result-cases, Bool-cases,
}
use lado_flow.Protocol.Message.Payload.{hello_payload, capabilities_payload}
use lado_flow.Protocol.Display.{display_config_payload}
use lado_flow.Transport.Packet.{Packet, PacketTransport}
use lado_flow.Desktop.Modes.{HostProtocolConfig}
use lado_flow.Desktop.Handshake.{
  zero_timeout, EstablishedHostSession, HostHandshake, with_nonce, payload_packet, initial_packets,
}
use lado_flow.Desktop.Handshake.Accept.{kept}
use lado_flow.Desktop.Handshake.Waiting.Steps.{at, Sends}
use lado_flow.Desktop.Handshake.Waiting.{
  Waiting, bind_wait, new_handshake, wait_result, send_reliable_control, negotiate_loop,
  negotiate_host_transport,
}
use lado_flow.Desktop.Handshake.Waiting.Answered.{bind_wait_ok, pure_step_ok, Passed, send_ok}
use lado_flow.Desktop.Handshake.Waiting.Concluded.{Accepted-kept, Concluded, loop_ok}

with_nonce-kept :
    (config : HostProtocolConfig) (nonce : List ℕ) (h : HostHandshake)
    → with_nonce config nonce ≡ ok h
    → (kept h ≡ 0) × (h.config ≡ config)
unfolding with_nonce
with_nonce-kept config nonce h e = ground arith

new_handshake-kept :
    (config : HostProtocolConfig) (draw : Option (List ℕ)) (h : HostHandshake)
    → new_handshake config draw ≡ ok h
    → (kept h ≡ 0) × (h.config ≡ config)
unfolding new_handshake
new_handshake-kept config none h e = absurd (ground arith)
new_handshake-kept config (some nonce) h e = with_nonce-kept config nonce h e

initial_packets_ok :
    (h : HostHandshake) (ps : Packet × Packet)
    → initial_packets h ≡ ok ps
    → (payload_packet 0 h.host_hello ≡ ok ps.0) × (payload_packet 1 h.host_capabilities ≡ ok ps.1)
unfolding initial_packets
initial_packets_ok h ps e = elim (Result-cases (payload_packet 0 h.host_hello)) [
  | inr (x, a) ↦ absurd (ground arith)
  | inl (p, a) ↦ elim (Result-cases (payload_packet 1 h.host_capabilities)) [
    | inr (x, b) ↦ absurd (ground arith)
    | inl (q, b) ↦ ground arith
  ]
]

-- The whole exchange: the host's hello and offer are sent under numbers 0 and 1, and what is then
-- read are two packets that conclude it.
pub record Concludes {S : Type 0} (t : PacketTransport S) (meanwhile : ℕ → S → S)
    (config : HostProtocolConfig) (h : HostHandshake) (s : S) (e : EstablishedHostSession)
    (w : Waiting S) : Type 0 where
  pub empty : kept h ≡ 0
  pub configured : h.config ≡ config
  pub hello : Packet
  pub offer : Packet
  pub hello_framed : payload_packet 0 h.host_hello ≡ ok hello
  pub offer_framed : payload_packet 1 h.host_capabilities ≡ ok offer
  pub hello_checks : ℕ
  pub offer_checks : ℕ
  pub hello_link : S
  pub offer_link : S
  pub sends_hello : Sends t meanwhile 0 s hello hello_checks hello_link
  pub sends_offer : Sends t meanwhile hello_checks hello_link offer offer_checks offer_link
  pub concluded : Concluded t meanwhile h offer_checks offer_link e w
  pub two : length concluded.packets ≡ 2

module _ {S : Type 0} (t : PacketTransport S) (meanwhile : ℕ → S → S) (cancel : ℕ → Bool)
    (now : ℕ → ℕ) (deadline : ℕ) where
  -- The checks below a number, none of which refuses.
  abbrev pub AllPassed : ℕ → Type 0
  AllPassed zero = Unit {0}
  AllPassed (suc n) = AllPassed n × (wait_result t meanwhile cancel now deadline n ≡ ok tt)

  Passed-AllPassed : (n m : ℕ) → n ≤ m → Passed t meanwhile cancel now deadline 0 m → AllPassed n
  Passed-AllPassed zero m le passed = tt
  Passed-AllPassed (suc n) m le passed =
      (Passed-AllPassed n m (omega arith) passed, passed n (omega arith) (omega arith))

  Passed-append :
      (n m k : ℕ)
      → Passed t meanwhile cancel now deadline n m
      → Passed t meanwhile cancel now deadline m k
      → Passed t meanwhile cancel now deadline n k
  Passed-append n m k low high i from below = elim (Bool-cases (ltb i m)) [
    | inl less ↦ low i from (ground arith)
    | inr more ↦ high i (ground arith) below
  ]

  -- The two sends and the reads of an exchange that returns.
  opening_ok :
      (fuel : ℕ) (config : HostProtocolConfig) (h : HostHandshake) (s : S) (p q : Packet)
      (e : EstablishedHostSession) (w' : Waiting S)
      → (kept h ≡ 0) × (h.config ≡ config)
      → (payload_packet 0 h.host_hello ≡ ok p) × (payload_packet 1 h.host_capabilities ≡ ok q)
      → bind_wait
          (λ _ w.
            bind_wait
              (λ _. negotiate_loop t meanwhile cancel now fuel deadline h)
              (send_reliable_control t meanwhile cancel now fuel deadline q w))
          (send_reliable_control t meanwhile cancel now fuel deadline p (at 0 s))
        ≡ some (ok e, w')
      → Concludes t meanwhile config h s e w' × AllPassed w'.checks
  opening_ok fuel config h s p q e w' fresh framed run =
      let (u1, w1, first, rest1) =
        bind_wait_ok _ (send_reliable_control t meanwhile cancel now fuel deadline p (at 0 s)) e w'
          run in
      let (u2, w2, second, rest2) =
        bind_wait_ok _ (send_reliable_control t meanwhile cancel now fuel deadline q w1) e w'
          rest1 in
      let (sends1, free1) = send_ok t meanwhile cancel now deadline fuel 0 s p w1 first in
      let (sends2, free2) =
        send_ok t meanwhile cancel now deadline fuel w1.checks w1.link q w2 second in
      let (concluded, free3) =
        loop_ok t meanwhile cancel now deadline fuel h w2.checks w2.link e w' rest2 in
      (
        record {
          empty = fresh.0;
          configured = fresh.1;
          hello = p;
          offer = q;
          hello_framed = framed.0;
          offer_framed = framed.1;
          hello_checks = w1.checks;
          offer_checks = w2.checks;
          hello_link = w1.link;
          offer_link = w2.link;
          sends_hello = sends1;
          sends_offer = sends2;
          concluded = concluded;
          two = omega (arith, Accepted-kept concluded.accepted, concluded.both, fresh.0);
        },
        Passed-AllPassed w'.checks w'.checks (omega arith) (
            Passed-append 0 w1.checks w'.checks free1
              (Passed-append w1.checks w2.checks w'.checks free2 free3)),
      )

-- Over any transport, whatever the other parties do to it between two checks, a session that the
-- exchange of the host returns is the end of this run: the timeout is not zero and no check
-- refuses; the transport takes the host's own hello and offer under numbers 0 and 1; it then hands
-- out exactly two packets, which the new handshake takes one after the other as `Progress` says and
-- which leave it with a hello and an offer of the display; these establish the session as
-- IsEstablished says; and the transport takes its configuration under number 2.
pub negotiate_host_transport-Concludes :
    {S : Type 0} (t : PacketTransport S) (meanwhile : ℕ → S → S) (cancel : ℕ → Bool) (now : ℕ → ℕ)
    (config : HostProtocolConfig) (draw : Option (List ℕ)) (started timeout fuel : ℕ) (s : S)
    (e : EstablishedHostSession) (w : Waiting S)
    → negotiate_host_transport t meanwhile cancel now fuel started config draw timeout
        (record { checks = 0; link = s })
      ≡ some (ok e, w)
    → (0 < timeout)
      × (h : HostHandshake) × (new_handshake config draw ≡ ok h)
      × Concludes t meanwhile config h s e w
      × AllPassed t meanwhile cancel now (started + timeout) w.checks
unfolding negotiate_host_transport
negotiate_host_transport-Concludes t meanwhile cancel now config draw started timeout fuel s e w
      made =
    let (u, nonzero, rest1) =
      pure_step_ok _ (guard (not (timeout == 0)) zero_timeout) (at 0 s) e w made in
    let (h, fresh, rest2) = pure_step_ok _ (new_handshake config draw) (at 0 s) e w rest1 in
    let (ps, framed, rest3) = pure_step_ok _ (initial_packets h) (at 0 s) e w rest2 in
    let (concludes, passed) =
      opening_ok t meanwhile cancel now (started + timeout) fuel config h s ps.0 ps.1 e w
        (new_handshake-kept config draw h fresh) (initial_packets_ok h ps framed) rest3 in
    (ground arith, h, fresh, concludes, passed)
