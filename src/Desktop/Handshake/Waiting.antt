-- ===== src/Desktop/Handshake/Waiting.antt =====
-- apps/desktop/src-tauri/src/host_protocol.rs: the loops that wait for a transport. The flag and the
-- clock are read once in each check, and the other parties move the transport between two checks:
-- all three are parameters, by the number of the check. The outer `none` is a loop out of fuel.
pub mod Answered
pub mod Concluded
pub mod Ends
pub mod Establishes
pub mod Outcome
pub mod Steps
mod Examples
use lado_flow.Base.{
  ℕ, zero, suc, ◌+◌, ◌==◌, not, Bool, true, false, Option, none, some, leb, List, if◌then◌else◌,
  Result, ok, err,
}
use lado_flow.Base
use lado_flow.Protocol.Message.Payload.{WirePayload}
use lado_flow.Protocol.Display.{display_config_payload}
use lado_flow.Transport.Packet.{
  Channel, control, Packet, SendError, SendReport, full, ReceiveError, PacketTransport,
}
use lado_flow.Desktop.Modes.{HostProtocolConfig}
use lado_flow.Desktop.Handshake.{
  HandshakeError, zero_timeout, no_randomness, cancelled, timed_out, link_lost, send_refused,
  EstablishedHostSession, HostHandshake, with_nonce, payload_packet, initial_packets, accept,
}

-- A transport, and how many checks were made.
pub record Waiting (S : Type 0) : Type 0 where
  pub checks : ℕ
  pub link : S

abbrev pub Wait : Type 0 → Type 0 → Type 0
Wait S A = Waiting S → Option (Result HandshakeError A × Waiting S)

module _ {S : Type 0} where
  abbrev pub bind_wait :
      {A B : Type 0}
      → (A → Wait S B)
      → Option (Result HandshakeError A × Waiting S)
      → Option (Result HandshakeError B × Waiting S)
  bind_wait f none = none
  bind_wait f (some (ok a, w)) = f a w
  bind_wait f (some (err e, w)) = some (err e, w)

  infixl 5 ◌>>=◌ ◌>>◌
  abbrev pub ◌>>=◌ : {A B : Type 0} → Wait S A → (A → Wait S B) → Wait S B
  ◌>>=◌ m f w = bind_wait f (m w)

  abbrev pub ◌>>◌ : {B : Type 0} → Wait S (Unit {0}) → Wait S B → Wait S B
  m >> k = m >>= λ _. k

  -- A step that neither checks nor uses the transport.
  abbrev pub pure_step : {A : Type 0} → Result HandshakeError A → Wait S A
  pure_step r w = some (r, w)

  -- A call of the transport.
  abbrev pub on_link : {A : Type 0} → (S → A × S) → Wait S A
  on_link call w = let (a, s) = call w.link in some (ok a, record w { link = s })

-- `HostHandshake::new`, with the draw of `getrandom::fill`; a failed draw is `none`.
unfoldable pub new_handshake :
    HostProtocolConfig → Option (List ℕ) → Result HandshakeError HostHandshake
new_handshake config none = err no_randomness
new_handshake config (some nonce) = with_nonce config nonce

module _ {S : Type 0} (t : PacketTransport S) (meanwhile : ℕ → S → S) (cancel : ℕ → Bool)
    (now : ℕ → ℕ) where
  -- The answer of a check.
  unfoldable pub wait_result : ℕ → ℕ → Result HandshakeError (Unit {0})
  wait_result deadline n =
      if cancel n then err cancelled else if leb deadline (now n) then err timed_out else ok tt

  unfoldable pub check_wait : ℕ → Wait S (Unit {0})
  check_wait deadline w = some (
    wait_result deadline w.checks,
    record { checks = w.checks + 1; link = meanwhile w.checks w.link },
  )

  -- The `match` on what `try_send` answers, with the rest of the loop for a full queue.
  abbrev pub sent : (Packet → Wait S (Unit {0})) → Result SendError SendReport → Wait S (Unit {0})
  sent again (ok report) = pure_step (ok tt)
  sent again (err (SendError.full packet depth limits)) = again packet
  sent again (err (SendError.disconnected packet)) = pure_step (err send_refused)
  sent again (err (SendError.packet_too_large packet size limit)) = pure_step (err send_refused)

  unfoldable pub send_reliable_control : ℕ → ℕ → Packet → Wait S (Unit {0})
  unfolding check_wait
  send_reliable_control zero deadline packet w = none
  send_reliable_control (suc fuel) deadline packet w =
      (check_wait deadline
          >> (on_link (λ s. t.try_send s packet) >>= sent (send_reliable_control fuel deadline)))
        w

  module _ {A : Type 0} ⦃p : WirePayload A⦄ where
    -- `started` is the reading of the clock.
    unfoldable pub send_control_payload : ℕ → ℕ → ℕ → ℕ → A → Wait S (Unit {0})
    unfolding send_reliable_control
    send_control_payload fuel started timeout sequence payload =
        pure_step (Base.guard (not (timeout == 0)) zero_timeout)
        >> (pure_step (payload_packet sequence payload)
            >>= send_reliable_control fuel (started + timeout))

  -- The end of the exchange: the configuration is sent to the display.
  unfoldable pub confirm : ℕ → ℕ → EstablishedHostSession → Wait S EstablishedHostSession
  unfolding send_reliable_control
  confirm fuel deadline e = pure_step (payload_packet 2 e.display_config) >>= λ packet.
      send_reliable_control fuel deadline packet >> pure_step (ok e)

  -- The `match` on what arrived, with the rest of the loop.
  abbrev pub handled :
      (HostHandshake → Wait S EstablishedHostSession)
      → (EstablishedHostSession → Wait S EstablishedHostSession)
      → Result HandshakeError (Option EstablishedHostSession) × HostHandshake
      → Wait S EstablishedHostSession
  handled again finish (err e, h) = pure_step (err e)
  handled again finish (ok none, h) = again h
  handled again finish (ok (some e), h) = finish e

  abbrev pub arrived :
      (HostHandshake → Wait S EstablishedHostSession)
      → (EstablishedHostSession → Wait S EstablishedHostSession)
      → HostHandshake
      → Result ReceiveError (Option Packet)
      → Wait S EstablishedHostSession
  arrived again finish h (ok none) = again h
  arrived again finish h (ok (some packet)) = handled again finish (accept h packet)
  arrived again finish h (err e) = pure_step (err link_lost)

  -- The loop of `negotiate_host_transport`.
  unfoldable pub negotiate_loop : ℕ → ℕ → HostHandshake → Wait S EstablishedHostSession
  unfolding check_wait confirm
  negotiate_loop zero deadline h w = none
  negotiate_loop (suc fuel) deadline h w =
      (check_wait deadline
          >> (on_link (λ s. t.try_receive s Channel.control)
              >>= arrived (negotiate_loop fuel deadline) (confirm fuel deadline) h))
        w

  unfoldable pub negotiate_host_transport :
      ℕ → ℕ → HostProtocolConfig → Option (List ℕ) → ℕ → Wait S EstablishedHostSession
  unfolding new_handshake send_reliable_control negotiate_loop
  negotiate_host_transport fuel started config draw timeout = do
    pure_step (Base.guard (not (timeout == 0)) zero_timeout)
    handshake ← pure_step (new_handshake config draw)
    packets ← pure_step (initial_packets handshake)
    send_reliable_control fuel (started + timeout) packets.0
    send_reliable_control fuel (started + timeout) packets.1
    negotiate_loop fuel (started + timeout) handshake
