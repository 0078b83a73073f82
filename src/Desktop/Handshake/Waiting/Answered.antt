-- ===== src/Desktop/Handshake/Waiting/Answered.antt =====
-- What a send of the loops that wait rests on when it returns: no check refused, and the transport
-- took the packet.
use mathlib.Core.Path.{subst}
use lado_flow.Base.{
  ℕ, zero, suc, ◌+◌, ◌≤◌, ◌<◌, ◌≡◌, refl, arith, Bool, ◌==◌, Option, none, some, Result, ok, err,
  inl, inr, Bool-cases,
}
use lado_flow.Protocol.Message.Payload.{hello_payload, capabilities_payload}
use lado_flow.Protocol.Display.{display_config_payload}
use lado_flow.Transport.Packet.{Packet, SendError, SendReport, PacketTransport}
use lado_flow.Desktop.Handshake.{HandshakeError}
use lado_flow.Desktop.Handshake.Waiting.Steps.{at, Sends, taken, retried}
use lado_flow.Desktop.Handshake.Waiting.{
  Waiting, Wait, bind_wait, wait_result, check_wait, sent, send_reliable_control,
}

-- A block that returns a value, by its first step.
pub bind_wait_ok :
    {S A B : Type 0} (f : A → Wait S B) (r : Option (Result HandshakeError A × Waiting S)) (b : B)
    (w' : Waiting S)
    → bind_wait f r ≡ some (ok b, w')
    → (a : A) × (w : Waiting S) × (r ≡ some (ok a, w)) × (f a w ≡ some (ok b, w'))
bind_wait_ok f none b w' e = absurd (ground arith)
bind_wait_ok f (some (ok a, w)) b w' e = (a, w, refl, e)
bind_wait_ok f (some (err x, w)) b w' e = absurd (ground arith)

pub pure_step_ok :
    {S A B : Type 0} (f : A → Wait S B) (r : Result HandshakeError A) (w : Waiting S) (b : B)
    (w' : Waiting S)
    → bind_wait f (some (r, w)) ≡ some (ok b, w')
    → (a : A) × (r ≡ ok a) × (f a w ≡ some (ok b, w'))
pure_step_ok f (ok a) w b w' e = (a, refl, e)
pure_step_ok f (err x) w b w' e = absurd (ground arith)

module _ {S : Type 0} (t : PacketTransport S) (meanwhile : ℕ → S → S) (cancel : ℕ → Bool)
    (now : ℕ → ℕ) (deadline : ℕ) where
  -- No check of a range refuses.
  abbrev pub Passed : ℕ → ℕ → Type 0
  Passed n m = (i : ℕ) → n ≤ i → i < m → wait_result t meanwhile cancel now deadline i ≡ ok tt

  pub Passed-suc :
      (n m : ℕ)
      → wait_result t meanwhile cancel now deadline n ≡ ok tt
      → Passed (n + 1) m
      → Passed n m
  Passed-suc n m e more i from below = elim (Bool-cases (n == i)) [
    | inl same ↦
        let eq : n ≡ i = ground arith in
        subst (λ j. wait_result t meanwhile cancel now deadline j ≡ ok tt) eq e
    | inr other ↦ more i (ground arith) below
  ]

  pub check_wait_ok :
      {A : Type 0} (f : Wait S A) (n : ℕ) (s : S) (a : A) (w' : Waiting S)
      → bind_wait (λ _. f) (check_wait t meanwhile cancel now deadline (at n s)) ≡ some (ok a, w')
      → (wait_result t meanwhile cancel now deadline n ≡ ok tt)
        × (f (at (n + 1) (meanwhile n s)) ≡ some (ok a, w'))
  unfolding check_wait
  check_wait_ok f n s a w' e =
      let (u, passed, more) =
        pure_step_ok (λ _. f) (wait_result t meanwhile cancel now deadline n)
          (at (n + 1) (meanwhile n s)) a w' e in
      (passed, more)

  -- A send that has ended.
  abbrev pub Sent : ℕ → S → Packet → Waiting S → Type 0
  Sent n s p w = Sends t meanwhile n s p w.checks w.link × Passed n w.checks

  sent_ok :
      (again : Packet → Wait S (Unit {0})) (n : ℕ) (s : S) (p : Packet) (w' : Waiting S)
      (r : Result SendError SendReport × S)
      → t.try_send (meanwhile n s) p ≡ r
      → wait_result t meanwhile cancel now deadline n ≡ ok tt
      → ((q : Packet) (s1 : S) → again q (at (n + 1) s1) ≡ some (ok tt, w') → Sent (n + 1) s1 q w')
      → sent t meanwhile cancel now again r.0 (at (n + 1) r.1) ≡ some (ok tt, w')
      → Sent n s p w'
  sent_ok again n s p w' (ok report, s1) e passed more h =
      let same : at (n + 1) s1 ≡ w' = ground arith in
      subst (Sent n s p) same
        (taken e, Passed-suc n (n + 1) passed (λ i from below. absurd (omega (arith, from, below))))
  sent_ok again n s p w' (err (SendError.full q depth limits), s1) e passed more h =
      let (rest, free) = more q s1 h in (retried e rest, Passed-suc n w'.checks passed free)
  sent_ok again n s p w' (err (SendError.disconnected q), s1) e passed more h =
      absurd (ground arith)
  sent_ok again n s p w' (err (SendError.packet_too_large q size limit), s1) e passed more h =
      absurd (ground arith)

  pub send_ok :
      (fuel n : ℕ) (s : S) (p : Packet) (w' : Waiting S)
      → send_reliable_control t meanwhile cancel now fuel deadline p (at n s) ≡ some (ok tt, w')
      → Sent n s p w'
  unfolding send_reliable_control
  send_ok zero n s p w' e = absurd (ground arith)
  send_ok (suc fuel) n s p w' e =
      let (passed, more) = check_wait_ok _ n s tt w' e in
      sent_ok (send_reliable_control t meanwhile cancel now fuel deadline) n s p w'
        (t.try_send (meanwhile n s) p) refl passed (λ q s1 h. send_ok fuel (n + 1) s1 q w' h) more
