-- ===== src/Desktop/Handshake/Waiting/Ends.antt =====
-- The loops end by the first check that refuses, and fuel above its number is enough.
use mathlib.Core.Path.{subst}
use lado_flow.Base.{
  ℕ, zero, suc, ◌+◌, ◌≤◌, ◌<◌, ◌≡◌, refl, sym, ap, ◌∙◌, arith, inl, inr, Bool, Bool-cases, ◌==◌,
  not, guard, Option, none, some, List, Result, ok, err, Result-cases,
}
use lado_flow.Protocol.Display.{display_config_payload}
use lado_flow.Transport.Packet.{
  Channel, Packet, SendError, SendReport, ReceiveError, PacketTransport,
}
use lado_flow.Desktop.Modes.{HostProtocolConfig}
use lado_flow.Desktop.Handshake.{
  HandshakeError, zero_timeout, EstablishedHostSession, HostHandshake, payload_packet,
  initial_packets, accept,
}
use lado_flow.Desktop.Handshake.Waiting.{
  Waiting, Wait, bind_wait, new_handshake, wait_result, check_wait, sent, send_reliable_control,
  confirm, handled, arrived, negotiate_loop, negotiate_host_transport,
}

-- A block that has ended: with an error, or after at most `m` checks.
abbrev pub Ended : {S A : Type 0} → ℕ → Option (Result HandshakeError A × Waiting S) → Type 0
Ended m none = ⊥
Ended m (some (ok a, w)) = w.checks ≤ m
Ended m (some (err e, w)) = Unit {0}

bind_wait-Ended :
    {S A B : Type 0} (m : ℕ) (f : A → Wait S B) (r : Option (Result HandshakeError A × Waiting S))
    → Ended m r
    → ((a : A) (w : Waiting S) → w.checks ≤ m → Ended m (f a w))
    → Ended m (bind_wait f r)
bind_wait-Ended m f none e more = absurd e
bind_wait-Ended m f (some (ok a, w)) e more = more a w e
bind_wait-Ended m f (some (err x, w)) e more = tt

pure_step-Ended :
    {S A B : Type 0} (m : ℕ) (r : Result HandshakeError A) (f : A → Wait S B) (w : Waiting S)
    → ((a : A) → Ended m (f a w))
    → Ended m (bind_wait f (some (r, w)))
pure_step-Ended m (ok a) f w more = more a
pure_step-Ended m (err x) f w more = tt

-- The answer of a block that has ended.
pub Ended-answer :
    {S A : Type 0} (m : ℕ) (r : Option (Result HandshakeError A × Waiting S))
    → Ended m r
    → (a : Result HandshakeError A) × (w : Waiting S) × (r ≡ some (a, w))
Ended-answer m none e = absurd e
Ended-answer m (some (a, w)) e = (a, w, refl)

module _ {S : Type 0} (t : PacketTransport S) (meanwhile : ℕ → S → S) (cancel : ℕ → Bool)
    (now : ℕ → ℕ) (deadline : ℕ) where
  module _ (m : ℕ) (reason : HandshakeError)
      (refuses : wait_result t meanwhile cancel now deadline m ≡ err reason) where
    -- A check that lets the block go on is not the refusing one.
    before : (n : ℕ) → n ≤ m → wait_result t meanwhile cancel now deadline n ≡ ok tt → n + 1 ≤ m
    before n le e = elim (Bool-cases (n == m)) [
      | inl same ↦
          let eq : n ≡ m = ground arith in
          absurd
            (ground (arith, sym (ap (wait_result t meanwhile cancel now deadline) eq) ∙ e, refuses))
      | inr other ↦ ground arith
    ]

    abbrev checked : Waiting S → Waiting S
    checked w = record { checks = w.checks + 1; link = meanwhile w.checks w.link }

    check_wait-Ended :
        {A : Type 0} (f : Wait S A) (w : Waiting S)
        → w.checks ≤ m
        → (w.checks + 1 ≤ m → Ended m (f (checked w)))
        → Ended m (bind_wait (λ _. f) (check_wait t meanwhile cancel now deadline w))
    unfolding check_wait
    check_wait-Ended f w le more =
        elim (Result-cases (wait_result t meanwhile cancel now deadline w.checks)) [
          | inl (u, e) ↦
              subst (λ r. Ended m (bind_wait (λ _. f) (some (r, checked w)))) (sym e)
                (more (before w.checks le e))
          | inr (x, e) ↦ subst (λ r. Ended m (bind_wait (λ _. f) (some (r, checked w)))) (sym e) tt
        ]

    sent-Ended :
        (again : Packet → Wait S (Unit {0})) (r : Result SendError SendReport) (w : Waiting S)
        → w.checks ≤ m
        → ((p : Packet) → Ended m (again p w))
        → Ended m (sent t meanwhile cancel now again r w)
    sent-Ended again (ok report) w le more = le
    sent-Ended again (err (SendError.full p depth limits)) w le more = more p
    sent-Ended again (err (SendError.disconnected p)) w le more = tt
    sent-Ended again (err (SendError.packet_too_large p size limit)) w le more = tt

    send-Ended :
        (fuel : ℕ) (p : Packet) (w : Waiting S)
        → w.checks ≤ m
        → m < w.checks + fuel
        → Ended m (send_reliable_control t meanwhile cancel now fuel deadline p w)
    unfolding send_reliable_control
    send-Ended zero p w le more = absurd (omega arith)
    send-Ended (suc fuel) p w le more = check_wait-Ended _ w le λ soon.
        let s = meanwhile w.checks w.link in
        sent-Ended (send_reliable_control t meanwhile cancel now fuel deadline) (t.try_send s p).0
          (record { checks = w.checks + 1; link = (t.try_send s p).1 }) soon
          (λ q.
            send-Ended fuel q (record { checks = w.checks + 1; link = (t.try_send s p).1 }) soon
              (omega (arith, more)))

    confirm-Ended :
        (fuel : ℕ) (e : EstablishedHostSession) (w : Waiting S)
        → w.checks ≤ m
        → m < w.checks + fuel
        → Ended m (confirm t meanwhile cancel now fuel deadline e w)
    unfolding confirm
    confirm-Ended fuel e w le more =
        pure_step-Ended m (payload_packet 2 e.display_config) _ w
          λ p. bind_wait-Ended m _ _ (send-Ended fuel p w le more) λ u w' le'. le'

    handled-Ended :
        (again : HostHandshake → Wait S EstablishedHostSession)
        (finish : EstablishedHostSession → Wait S EstablishedHostSession)
        (r : Result HandshakeError (Option EstablishedHostSession) × HostHandshake) (w : Waiting S)
        → ((h : HostHandshake) → Ended m (again h w))
        → ((e : EstablishedHostSession) → Ended m (finish e w))
        → Ended m (handled t meanwhile cancel now again finish r w)
    handled-Ended again finish (err e, h) w more last = tt
    handled-Ended again finish (ok none, h) w more last = more h
    handled-Ended again finish (ok (some e), h) w more last = last e

    arrived-Ended :
        (again : HostHandshake → Wait S EstablishedHostSession)
        (finish : EstablishedHostSession → Wait S EstablishedHostSession) (h : HostHandshake)
        (r : Result ReceiveError (Option Packet)) (w : Waiting S)
        → ((h' : HostHandshake) → Ended m (again h' w))
        → ((e : EstablishedHostSession) → Ended m (finish e w))
        → Ended m (arrived t meanwhile cancel now again finish h r w)
    arrived-Ended again finish h (ok none) w more last = more h
    arrived-Ended again finish h (ok (some p)) w more last =
        handled-Ended again finish (accept h p) w more last
    arrived-Ended again finish h (err e) w more last = tt

    loop-Ended :
        (fuel : ℕ) (h : HostHandshake) (w : Waiting S)
        → w.checks ≤ m
        → m < w.checks + fuel
        → Ended m (negotiate_loop t meanwhile cancel now fuel deadline h w)
    unfolding negotiate_loop
    loop-Ended zero h w le more = absurd (omega arith)
    loop-Ended (suc fuel) h w le more = check_wait-Ended _ w le λ soon.
        let s = meanwhile w.checks w.link in
        let w' : Waiting S = record {
          checks = w.checks + 1;
          link = (t.try_receive s Channel.control).1;
        } in
        arrived-Ended (negotiate_loop t meanwhile cancel now fuel deadline)
          (confirm t meanwhile cancel now fuel deadline) h (t.try_receive s Channel.control).0 w'
          (λ h'. loop-Ended fuel h' w' soon (omega (arith, more)))
          (λ e. confirm-Ended fuel e w' soon (omega (arith, more)))

-- Over any transport, whatever the other parties do to it between two checks, once some check of
-- the cancel flag and the deadline would refuse, fuel above its number is enough for the whole
-- exchange of the host to return.
pub negotiate_host_transport-terminates :
    {S : Type 0} (t : PacketTransport S) (meanwhile : ℕ → S → S) (cancel : ℕ → Bool) (now : ℕ → ℕ)
    (config : HostProtocolConfig) (draw : Option (List ℕ)) (started timeout : ℕ) (s : S) (m : ℕ)
    (reason : HandshakeError) (fuel : ℕ)
    → wait_result t meanwhile cancel now (started + timeout) m ≡ err reason
    → m < fuel
    → (r : Result HandshakeError EstablishedHostSession) × (w : Waiting S)
      × (negotiate_host_transport t meanwhile cancel now fuel started config draw timeout
            (record { checks = 0; link = s })
          ≡ some (r, w))
unfolding negotiate_host_transport
negotiate_host_transport-terminates t meanwhile cancel now config draw started timeout s m reason
      fuel refuses enough =
    let deadline = started + timeout in
    let send = send-Ended t meanwhile cancel now deadline m reason refuses fuel in
    Ended-answer m _ (
      pure_step-Ended m (guard (not (timeout == 0)) zero_timeout) _
        (record { checks = 0; link = s })
        λ u.
          pure_step-Ended m (new_handshake config draw) _ (record { checks = 0; link = s })
            λ h.
              pure_step-Ended m (initial_packets h) _ (record { checks = 0; link = s })
                λ ps.
                  bind_wait-Ended m _ _
                    (send ps.0 (record { checks = 0; link = s }) (omega arith) (omega arith))
                    λ _ w le. bind_wait-Ended m _ _ (send ps.1 w le (omega arith)) λ _ w' le'.
                      loop-Ended t meanwhile cancel now deadline m reason refuses fuel h w' le'
                        (omega arith))
