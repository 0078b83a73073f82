-- ===== src/Desktop/Handshake/Waiting/Concluded.antt =====
-- What the loop of the exchange rests on when it returns a session: the packets that it read.
use mathlib.Core.Path.{subst}
use lado_flow.Base.{
  ℕ, zero, suc, ◌+◌, ◌≡◌, refl, sym, ap, ◌∙◌, arith, Bool, Option, none, some, List, [], ◌∷◌,
  length, Result, ok, err,
}
use lado_flow.Protocol.Message.Payload.{hello_payload, capabilities_payload}
use lado_flow.Protocol.Display.{display_config_payload}
use lado_flow.Transport.Packet.{Channel, Packet, ReceiveError, PacketTransport}
use lado_flow.Desktop.Handshake.{
  HandshakeError, EstablishedHostSession, HostHandshake, payload_packet, accept,
}
use lado_flow.Desktop.Handshake.Accept.{kept, Progress, Takes-kept, IsEstablished, accept-Progress}
use lado_flow.Desktop.Handshake.Waiting.Steps.{at, Sends, Hears, silence, final, heard}
use lado_flow.Desktop.Handshake.Waiting.{
  Waiting, Wait, wait_result, send_reliable_control, confirm, handled, arrived, negotiate_loop,
}
use lado_flow.Desktop.Handshake.Waiting.Answered.{
  bind_wait_ok, pure_step_ok, Passed, Passed-suc, check_wait_ok, Sent, send_ok,
}

-- A handshake that takes packets one after the other.
pub data Accepted : HostHandshake → List Packet → HostHandshake → Type 0 where
  start : {h : HostHandshake} → Accepted h [] h
  next :
      {h h' h'' : HostHandshake} {p : Packet} {ps : List Packet}
      → Progress h p h'
      → Accepted h' ps h''
      → Accepted h (p ∷ ps) h''

pub Accepted-kept :
    {h h' : HostHandshake} {ps : List Packet} → Accepted h ps h' → kept h' ≡ kept h + length ps
Accepted-kept start = omega arith
Accepted-kept (next p more) = omega (arith, Takes-kept p.takes, Accepted-kept more)

-- The rest of an exchange from a check on: the packets that are read take the handshake to both
-- payloads, which establish the session, and its configuration is then sent under number 2.
pub record Concluded {S : Type 0} (t : PacketTransport S) (meanwhile : ℕ → S → S)
    (h : HostHandshake) (n : ℕ) (s : S) (e : EstablishedHostSession) (w : Waiting S) : Type 0 where
  pub packets : List Packet
  pub checks : ℕ
  pub link : S
  pub hears : Hears t meanwhile n s packets checks link
  pub after : HostHandshake
  pub accepted : Accepted h packets after
  pub both : kept after ≡ 2
  pub established : IsEstablished after e
  pub answer : Packet
  pub framed : payload_packet 2 e.display_config ≡ ok answer
  pub confirms : Sends t meanwhile checks link answer w.checks w.link

-- An exchange by one read more.
extended :
    {S : Type 0} {t : PacketTransport S} {meanwhile : ℕ → S → S} {h g : HostHandshake} {n m : ℕ}
    {s s' : S} {e : EstablishedHostSession} {w : Waiting S}
    (rest : Concluded t meanwhile g m s' e w) (ps : List Packet)
    → Hears t meanwhile n s ps rest.checks rest.link
    → Accepted h ps rest.after
    → Concluded t meanwhile h n s e w
extended rest ps hears accepted = record {
  packets = ps;
  checks = rest.checks;
  link = rest.link;
  hears = hears;
  after = rest.after;
  accepted = accepted;
  both = rest.both;
  established = rest.established;
  answer = rest.answer;
  framed = rest.framed;
  confirms = rest.confirms;
}

module _ {S : Type 0} (t : PacketTransport S) (meanwhile : ℕ → S → S) (cancel : ℕ → Bool)
    (now : ℕ → ℕ) (deadline : ℕ) where
  -- What a call of `confirm` that returns has done.
  record Confirmed (e made : EstablishedHostSession) (n : ℕ) (s : S) (w : Waiting S) : Type 0 where
    same : made ≡ e
    answer : Packet
    framed : payload_packet 2 made.display_config ≡ ok answer
    sends : Sent t meanwhile cancel now deadline n s answer w

  confirm_ok :
      (fuel n : ℕ) (s : S) (made e : EstablishedHostSession) (w' : Waiting S)
      → confirm t meanwhile cancel now fuel deadline made (at n s) ≡ some (ok e, w')
      → Confirmed e made n s w'
  unfolding confirm
  confirm_ok fuel n s made e w' h =
      let (answer, framed, rest) =
        pure_step_ok _ (payload_packet 2 made.display_config) (at n s) e w' h in
      let (u, w, sends, ends) =
        bind_wait_ok _ (send_reliable_control t meanwhile cancel now fuel deadline answer (at n s))
          e w' rest in
      let last : w ≡ w' = ground (arith, ends) in
      record {
        same = ground (arith, ends);
        answer = answer;
        framed = framed;
        sends =
            subst (Sent t meanwhile cancel now deadline n s answer) last
              (send_ok t meanwhile cancel now deadline fuel n s answer w sends);
      }

  -- The rest of an exchange, no check of which refuses.
  abbrev Heard : HostHandshake → ℕ → S → EstablishedHostSession → Waiting S → Type 0
  Heard h n s e w =
      Concluded t meanwhile h n s e w × Passed t meanwhile cancel now deadline n w.checks

  module _ (fuel : ℕ) (again : HostHandshake → Wait S EstablishedHostSession) (n : ℕ) (s s1 : S)
      (e : EstablishedHostSession) (w' : Waiting S)
      (passed : wait_result t meanwhile cancel now deadline n ≡ ok tt)
      (more : (h : HostHandshake)
        → again h (at (n + 1) s1) ≡ some (ok e, w')
        → Heard h (n + 1) s1 e w') where
    handled_ok :
        (h : HostHandshake) (p : Packet)
        (r : Result HandshakeError (Option EstablishedHostSession) × HostHandshake)
        → t.try_receive (meanwhile n s) Channel.control ≡ (ok (some p), s1)
        → accept h p ≡ r
        → handled t meanwhile cancel now again
            (confirm t meanwhile cancel now fuel deadline)
            r
            (at (n + 1) s1)
          ≡ some (ok e, w')
        → Heard h n s e w'
    handled_ok h p (err x, h') found a run = absurd (ground arith)
    handled_ok h p (ok none, h') found a run =
        let (rest, free) = more h' run in
        let (progress, answer) = accept-Progress h h' p none a in
        (
          extended rest (p ∷ rest.packets) (heard found rest.hears) (next progress rest.accepted),
          Passed-suc t meanwhile cancel now deadline n w'.checks passed free,
        )
    handled_ok h p (ok (some made), h') found a run =
        let (progress, answer) = accept-Progress h h' p (some made) a in
        let c = confirm_ok fuel (n + 1) s1 made e w' run in
        (
          record {
            packets = p ∷ [];
            checks = n + 1;
            link = s1;
            hears = final found;
            after = h';
            accepted = next progress start;
            both = answer.0;
            established = subst (IsEstablished h') c.same answer.1;
            answer = c.answer;
            framed = ap (λ x. payload_packet 2 x.display_config) (sym c.same) ∙ c.framed;
            confirms = c.sends.0;
          },
          Passed-suc t meanwhile cancel now deadline n w'.checks passed c.sends.1,
        )

  arrived_ok :
      (fuel : ℕ) (again : HostHandshake → Wait S EstablishedHostSession) (n : ℕ) (s : S)
      (e : EstablishedHostSession) (w' : Waiting S) (h : HostHandshake)
      (r : Result ReceiveError (Option Packet) × S)
      → wait_result t meanwhile cancel now deadline n ≡ ok tt
      → ((h' : HostHandshake) (s1 : S)
          → again h' (at (n + 1) s1) ≡ some (ok e, w')
          → Heard h' (n + 1) s1 e w')
      → t.try_receive (meanwhile n s) Channel.control ≡ r
      → arrived t meanwhile cancel now again
          (confirm t meanwhile cancel now fuel deadline)
          h
          r.0
          (at (n + 1) r.1)
        ≡ some (ok e, w')
      → Heard h n s e w'
  arrived_ok fuel again n s e w' h (ok none, s1) passed more found run =
      let (rest, free) = more h s1 run in
      (
        extended rest rest.packets (silence found rest.hears) rest.accepted,
        Passed-suc t meanwhile cancel now deadline n w'.checks passed free,
      )
  arrived_ok fuel again n s e w' h (ok (some p), s1) passed more found run =
      handled_ok fuel again n s s1 e w' passed (λ h'. more h' s1) h p (accept h p) found refl run
  arrived_ok fuel again n s e w' h (err x, s1) passed more found run = absurd (ground arith)

  pub loop_ok :
      (fuel : ℕ) (h : HostHandshake) (n : ℕ) (s : S) (e : EstablishedHostSession) (w' : Waiting S)
      → negotiate_loop t meanwhile cancel now fuel deadline h (at n s) ≡ some (ok e, w')
      → Heard h n s e w'
  unfolding negotiate_loop
  loop_ok zero h n s e w' run = absurd (ground arith)
  loop_ok (suc fuel) h n s e w' run =
      let (passed, more) = check_wait_ok t meanwhile cancel now deadline _ n s e w' run in
      arrived_ok fuel (negotiate_loop t meanwhile cancel now fuel deadline) n s e w' h
        (t.try_receive (meanwhile n s) Channel.control) passed
        (λ h' s1 r. loop_ok fuel h' (n + 1) s1 e w' r) refl more
