-- ===== src/Desktop/Handshake/Exchange.antt =====
-- The display's two packets, in either order, establish the session.
use mathlib.Core.List.{append-nil}
use lado_flow.Base.{
  ℕ, ◌^◌, ◌<◌, ◌≡◌, refl, sym, ap, ◌∙◌, arith, ◌⊎◌, inl, inr, is_some, ◌&&◌, true, false, Option,
  none, some, List, [], Result, ok, Result-cases, leb,
}
use lado_flow.Protocol.Error.{MessageType}
use lado_flow.Protocol.Frame.{
  Frame, encode_frame, encoded_len, decode_prefix, complete, new_frame, new_header,
}
use lado_flow.Protocol.Frame.Prefix.{IsFrame, decode_prefix-encode_frame, length-encode_frame}
use lado_flow.Protocol.Message.{Hello, Capabilities}
use lado_flow.Protocol.Message.Payload.{
  WirePayload, hello_payload, capabilities_payload, from_payload, decode_payload,
}
use lado_flow.Protocol.Message.Handshake.{IsHello}
use lado_flow.Protocol.Message.Offer.{IsOffer}
use lado_flow.Protocol.Message.Exchange.{hello-Sent, offer-Sent}
use lado_flow.Protocol.Display.{DisplayConfig}
use lado_flow.Core.Negotiation.{NegotiatedSession, negotiate}
use lado_flow.Transport.Packet.{Packet, control_packet}
use lado_flow.Desktop.Modes.{HostProtocolConfig, select_display_config}
use lado_flow.Desktop.Handshake.{
  HandshakeError, EstablishedHostSession, HostHandshake, with_nonce, payload_packet, read_control,
  whole_frame, is_control, take_payload, establish_host, settle, accept_read, accept, is_stale,
  finished,
}
use lado_flow.Desktop.Handshake.Accept.{
  opened, open_session-opened, accept_frame_newer, settle_both, settle_one, both_kept,
}

-- The handshake after a sequence number or a payload.
abbrev note : HostHandshake → ℕ → HostHandshake
note h n = record h { highest_display_sequence = some n }

abbrev with_hello : HostHandshake → Hello → HostHandshake
with_hello h k = record h { display_hello = some k }

abbrev with_offer : HostHandshake → Capabilities → HostHandshake
with_offer h c = record h { display_capabilities = some c }

-- A packet that carries one payload of a family under a sequence number.
record Brings {A : Type 0} (w : WirePayload A) (n : ℕ) (a : A) (p : Packet) : Type 0 where
  frame : Frame
  read : read_control p ≡ ok frame
  kind : frame.header.kind ≡ w.kind
  sequence : frame.header.sequence ≡ n
  decoded : decode_payload ⦃w = w⦄ frame ≡ ok a

read_control-encode_frame :
    (f : Frame) → IsFrame f → read_control (control_packet (encode_frame f)) ≡ ok f
unfolding read_control is_control whole_frame
read_control-encode_frame f v =
    let whole : decode_prefix (encode_frame f) ≡ ok (complete f (encoded_len f)) =
      ap decode_prefix (sym (append-nil (encode_frame f))) ∙ decode_prefix-encode_frame f [] v in
    rw whole (ground (arith, length-encode_frame f))

from_payload_header :
    {A : Type 0} (w : WirePayload A) (n : ℕ) (a : A) (f : Frame)
    → from_payload ⦃w = w⦄ 0 n a ≡ ok f
    → (f.header.kind ≡ w.kind) × (f.header.sequence ≡ n)
unfolding from_payload new_frame new_header
from_payload_header w n a f e = ground arith

payload_packet_frame :
    {A : Type 0} (w : WirePayload A) (n : ℕ) (a : A) (p : Packet)
    → payload_packet ⦃w = w⦄ n a ≡ ok p
    → (f : Frame) × (from_payload ⦃w = w⦄ 0 n a ≡ ok f) × (control_packet (encode_frame f) ≡ p)
unfolding payload_packet
payload_packet_frame w n a p e = elim (Result-cases (from_payload ⦃w = w⦄ 0 n a)) [
  | inl (f, m) ↦ (f, m, ground arith)
  | inr (x, m) ↦ absurd (ground arith)
]

hello-Brings :
    (k : Hello) (n : ℕ) (p : Packet)
    → IsHello k
    → n < 2 ^ 64
    → payload_packet n k ≡ ok p
    → Brings hello_payload n k p
hello-Brings k n p v h e =
    let (f, made, whole) = payload_packet_frame hello_payload n k p e in
    let (sent, back) = hello-Sent k n f v h made in
    let header = from_payload_header hello_payload n k f made in
    record {
      frame = f;
      read = ap read_control (sym whole) ∙ read_control-encode_frame f sent.frame;
      kind = header.0;
      sequence = header.1;
      decoded = back;
    }

offer-Brings :
    (c : Capabilities) (n : ℕ) (p : Packet)
    → IsOffer c
    → n < 2 ^ 64
    → payload_packet n c ≡ ok p
    → Brings capabilities_payload n c p
offer-Brings c n p v h e =
    let (f, made, whole) = payload_packet_frame capabilities_payload n c p e in
    let (sent, back) = offer-Sent c n f v h made in
    let header = from_payload_header capabilities_payload n c f made in
    record {
      frame = f;
      read = ap read_control (sym whole) ∙ read_control-encode_frame f sent.frame;
      kind = header.0;
      sequence = header.1;
      decoded = back;
    }

-- The next step of `accept` on such a packet.
accept_newer :
    {A : Type 0} (w : WirePayload A) (h : HostHandshake) (a : A) (n : ℕ) (p : Packet)
    (b : Brings w n a p)
    → is_stale h.highest_display_sequence n ≡ false
    → accept h p ≡ settle (note h n) (take_payload w.kind (note h n) b.frame)
unfolding accept accept_read
accept_newer w h a n p b newer =
    ap (accept_read h) b.read
    ∙ accept_frame_newer h b.frame (ap (is_stale h.highest_display_sequence) b.sequence ∙ newer)
    ∙ ap (λ x. settle (note h x) (take_payload b.frame.header.kind (note h x) b.frame)) b.sequence
    ∙ ap (λ k. settle (note h n) (take_payload k (note h n) b.frame)) b.kind

take_payload-hello :
    (h : HostHandshake) (k : Hello) (f : Frame)
    → h.display_hello ≡ none
    → decode_payload f ≡ ok k
    → take_payload MessageType.hello h f ≡ ok (with_hello h k)
unfolding take_payload
take_payload-hello h k f empty d = rw empty (rw d refl)

take_payload-capabilities :
    (h : HostHandshake) (c : Capabilities) (f : Frame)
    → h.display_capabilities ≡ none
    → decode_payload f ≡ ok c
    → take_payload MessageType.capabilities h f ≡ ok (with_offer h c)
unfolding take_payload
take_payload-capabilities h c f empty d = rw empty (rw d refl)

accept_hello :
    (h : HostHandshake) (k : Hello) (n : ℕ) (p : Packet)
    → Brings hello_payload n k p
    → h.display_hello ≡ none
    → is_stale h.highest_display_sequence n ≡ false
    → accept h p ≡ settle (note h n) (ok (with_hello (note h n) k))
accept_hello h k n p b empty newer =
    accept_newer hello_payload h k n p b newer
    ∙ ap (settle (note h n)) (take_payload-hello (note h n) k b.frame empty b.decoded)

accept_capabilities :
    (h : HostHandshake) (c : Capabilities) (n : ℕ) (p : Packet)
    → Brings capabilities_payload n c p
    → h.display_capabilities ≡ none
    → is_stale h.highest_display_sequence n ≡ false
    → accept h p ≡ settle (note h n) (ok (with_offer (note h n) c))
accept_capabilities h c n p b empty newer =
    accept_newer capabilities_payload h c n p b newer
    ∙ ap (settle (note h n)) (take_payload-capabilities (note h n) c b.frame empty b.decoded)

-- The handshake with both payloads establishes what the endpoints agree on.
abbrev pub established : Hello → NegotiatedSession → DisplayConfig → ℕ → EstablishedHostSession
established k g plan n = record {
  session = opened g (some n);
  display_config = plan;
  peer_name = k.implementation_name;
  next_sequence = 3;
}

establish_host_both :
    (h : HostHandshake) (k : Hello) (c : Capabilities) (n : ℕ) (g : NegotiatedSession)
    (plan : DisplayConfig)
    → negotiate h.host_hello h.host_capabilities k c ≡ ok g
    → select_display_config h.config g ≡ ok plan
    → establish_host (with_offer (with_hello (note h n) k) c) ≡ ok (established k g plan n)
unfolding establish_host
establish_host_both h k c n g plan agreed planned =
    rw agreed (rw planned (rw (open_session-opened g (some n)) refl))

-- A handshake that nothing was received for yet.
is_stale-none :
    (h : HostHandshake) (n : ℕ)
    → h.highest_display_sequence ≡ none
    → is_stale h.highest_display_sequence n ≡ false
is_stale-none h n e = rw e refl

record Fresh (h : HostHandshake) : Type 0 where
  no_hello : h.display_hello ≡ none
  no_offer : h.display_capabilities ≡ none
  no_sequence : h.highest_display_sequence ≡ none

with_nonce-Fresh :
    (config : HostProtocolConfig) (nonce : List ℕ) (h : HostHandshake)
    → with_nonce config nonce ≡ ok h
    → Fresh h × (h.config ≡ config)
unfolding with_nonce
with_nonce-Fresh config nonce h e = ground arith

-- `accept` of two packets, with both answers.
abbrev pub accept_both :
    HostHandshake
    → Packet
    → Packet
    → Result HandshakeError (Option EstablishedHostSession)
      × Result HandshakeError (Option EstablishedHostSession)
accept_both h p q = let (r, h') = accept h p in (r, (accept h' q).0)

both_answers :
    (h h' h'' : HostHandshake) (p q : Packet) (e : EstablishedHostSession)
    → accept h p ≡ (ok none, h')
    → accept h' q ≡ (finished (establish_host h''), h'')
    → establish_host h'' ≡ ok e
    → accept_both h p q ≡ (ok none, ok (some e))
both_answers h h' h'' p q e one two made = rw one (rw two (rw made refl))

later : (n m : ℕ) → n < m → leb m n ≡ false
later n m less = ground arith

module _ (h : HostHandshake) (fresh : Fresh h) (k : Hello) (c : Capabilities) (n m : ℕ)
    (less : n < m) (g : NegotiatedSession) (plan : DisplayConfig)
    (agreed : negotiate h.host_hello h.host_capabilities k c ≡ ok g)
    (planned : select_display_config h.config g ≡ ok plan) where
  hello_then_offer :
      (p q : Packet)
      → Brings hello_payload n k p
      → Brings capabilities_payload m c q
      → accept_both h p q ≡ (ok none, ok (some (established k g plan m)))
  unfolding both_kept
  hello_then_offer p q b d =
      let one =
        accept_hello h k n p b fresh.no_hello (is_stale-none h n fresh.no_sequence)
        ∙ settle_one (note h n) (with_hello (note h n) k) (ap is_some fresh.no_offer) in
      let two =
        accept_capabilities (with_hello (note h n) k) c m q d fresh.no_offer (later n m less)
        ∙ settle_both _ _ refl in
      both_answers h _ _ p q _ one two (establish_host_both h k c m g plan agreed planned)

  offer_then_hello :
      (q p : Packet)
      → Brings capabilities_payload n c q
      → Brings hello_payload m k p
      → accept_both h q p ≡ (ok none, ok (some (established k g plan m)))
  unfolding both_kept
  offer_then_hello q p d b =
      let one =
        accept_capabilities h c n q d fresh.no_offer (is_stale-none h n fresh.no_sequence)
        ∙ settle_one (note h n) (with_offer (note h n) c)
            (ap (λ o. is_some o && true) fresh.no_hello) in
      let two =
        accept_hello (with_offer (note h n) c) k m p b fresh.no_hello (later n m less)
        ∙ settle_both _ _ refl in
      both_answers h _ _ q p _ one two (establish_host_both h k c m g plan agreed planned)

-- The hello and the offer of a display, in one packet each and in either order.
abbrev pub AreOpening : Hello → Capabilities → ℕ → ℕ → Packet → Packet → Type 0
AreOpening k c n m p q =
    ((payload_packet n k ≡ ok p) × (payload_packet m c ≡ ok q))
    ⊎ ((payload_packet n c ≡ ok p) × (payload_packet m k ≡ ok q))

-- A new host handshake that receives, in one packet each and in either order, the hello and the
-- offer of a display that meet IsHello and IsOffer, with ascending u64 sequence numbers, where
-- negotiation and the choice of a mode succeed, waits for the second after the first and then
-- establishes: an active session with the agreement and the second number as its cursor, the chosen
-- configuration, the display's name and 3 as the next number.
pub accept_both-established :
    (config : HostProtocolConfig) (nonce : List ℕ) (h : HostHandshake) (k : Hello)
    (c : Capabilities) (g : NegotiatedSession) (plan : DisplayConfig) (n m : ℕ) (p q : Packet)
    → with_nonce config nonce ≡ ok h
    → IsHello k
    → IsOffer c
    → n < m
    → m < 2 ^ 64
    → negotiate h.host_hello h.host_capabilities k c ≡ ok g
    → select_display_config config g ≡ ok plan
    → AreOpening k c n m p q
    → accept_both h p q ≡ (ok none, ok (some (established k g plan m)))
accept_both-established config nonce h k c g plan n m p q made v w less top agreed planned opening =
    let (fresh, same) = with_nonce-Fresh config nonce h made in
    let chosen = ap (λ x. select_display_config x g) same ∙ planned in
    let bottom : n < 2 ^ 64 = omega (arith, less, top) in
    elim opening [
      | inl (a, b) ↦
          hello_then_offer h fresh k c n m less g plan agreed chosen p q
            (hello-Brings k n p v bottom a) (offer-Brings c m q w top b)
      | inr (a, b) ↦
          offer_then_hello h fresh k c n m less g plan agreed chosen p q
            (offer-Brings c n p w bottom a) (hello-Brings k m q v top b)
    ]
