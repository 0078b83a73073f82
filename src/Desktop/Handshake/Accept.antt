-- ===== src/Desktop/Handshake/Accept.antt =====
-- What an accepted packet does to the handshake, and what an established session has agreed.
use mathlib.Core.Path.{subst}
use lado_flow.Base.{
  ℕ, ◌+◌, ◌≤◌, ◌<◌, ◌≡◌, ◌≢◌, refl, sym, ap, ◌∙◌, arith, inl, inr, Bool, true, false, ◌&&◌, is_some,
  Bool-cases, Option-cases, Option, none, some, Result, ok, err, Result-cases, if◌then◌else◌,
}
use lado_flow.Protocol.Error.{MessageType}
use lado_flow.Protocol.Frame.{Frame, decode_prefix, complete}
use lado_flow.Protocol.Message.{Hello, Capabilities}
use lado_flow.Protocol.Message.Payload.{decode_payload, hello_payload, capabilities_payload}
use lado_flow.Core.Negotiation.{NegotiatedSession, negotiate}
use lado_flow.Core.Session.{Session, new_session, start, establish, observe_sequence, active}
use lado_flow.Transport.Packet.{Channel, Packet, packet_len}
use lado_flow.Desktop.Modes.{select_display_config}
use lado_flow.Desktop.Handshake.{
  HandshakeError, EstablishedHostSession, HostHandshake, read_control, is_control, whole_frame,
  take_payload, establish_host, open_session, settle, accept_frame, accept_read, accept, is_stale,
  finished, not_newer,
}

-- The session that is opened.
abbrev pub opened : NegotiatedSession → Option ℕ → Session
opened g highest = record {
  phase = active;
  agreement = some g;
  connection_generation = 1;
  reconnect_attempts = 0;
  highest_sequence = highest;
}

pub open_session-opened :
    (g : NegotiatedSession) (highest : Option ℕ) → open_session g highest ≡ ok (opened g highest)
unfolding open_session start establish observe_sequence new_session
open_session-opened g none = refl
open_session-opened g (some n) = refl

-- An established session rests on the display's two payloads.
pub record IsEstablished (h : HostHandshake) (e : EstablishedHostSession) : Type 0 where
  pub hello : Hello
  pub offer : Capabilities
  pub agreement : NegotiatedSession
  pub heard : h.display_hello ≡ some hello
  pub offered : h.display_capabilities ≡ some offer
  pub agreed : negotiate h.host_hello h.host_capabilities hello offer ≡ ok agreement
  pub planned : select_display_config h.config agreement ≡ ok e.display_config
  pub session : e.session ≡ opened agreement h.highest_display_sequence
  pub name : e.peer_name ≡ hello.implementation_name
  pub next : e.next_sequence ≡ 3

establish_host-IsEstablished :
    (h : HostHandshake) (e : EstablishedHostSession) → establish_host h ≡ ok e → IsEstablished h e
unfolding establish_host
establish_host-IsEstablished h e made = elim (Option-cases h.display_hello) [
  | inl a ↦ absurd (ground arith)
  | inr (hello, a) ↦ elim (Option-cases h.display_capabilities) [
    | inl b ↦ absurd (ground arith)
    | inr (offer, b) ↦
        elim (Result-cases (negotiate h.host_hello h.host_capabilities hello offer)) [
          | inr (x, c) ↦ absurd (ground arith)
          | inl (g, c) ↦ elim (Result-cases (select_display_config h.config g)) [
            | inr (x, d) ↦ absurd (ground arith)
            | inl (plan, d) ↦
                let o = open_session-opened g h.highest_display_sequence in
                record {
                  hello = hello;
                  offer = offer;
                  agreement = g;
                  heard = a;
                  offered = b;
                  agreed = c;
                  planned = ground (arith, o);
                  session = ground (arith, o);
                  name = ground (arith, o);
                  next = ground (arith, o);
                }
          ]
        ]
  ]
]

-- How many of the two payloads are kept.
abbrev pub kept : HostHandshake → ℕ
kept h =
    (if is_some h.display_hello then 1 else 0) + (if is_some h.display_capabilities then 1 else 0)

-- The handshake with a newer sequence number noted.
abbrev pub noted : HostHandshake → Frame → HostHandshake
noted h f = record h { highest_display_sequence = some f.header.sequence }

-- A sequence number above the last.
abbrev pub IsNewer : Option ℕ → ℕ → Type 0
IsNewer none n = Unit {0}
IsNewer (some last) n = last < n

-- A handshake and its next state: the sequence number of a frame is noted, and the payload that the
-- frame decodes to is kept where none of its family was.
pub data Takes (f : Frame) (h h' : HostHandshake) : Type 0 where
  takes_hello :
      (hello : Hello)
      → f.header.kind ≡ MessageType.hello
      → h.display_hello ≡ none
      → decode_payload f ≡ ok hello
      → h'
        ≡ record h { display_hello = some hello; highest_display_sequence = some f.header.sequence }
      → Takes f h h'
  takes_offer :
      (offer : Capabilities)
      → f.header.kind ≡ MessageType.capabilities
      → h.display_capabilities ≡ none
      → decode_payload f ≡ ok offer
      → h' ≡ record h {
        display_capabilities = some offer;
        highest_display_sequence = some f.header.sequence;
      }
      → Takes f h h'

pub Takes-kept : {f : Frame} {h h' : HostHandshake} → Takes f h h' → kept h' ≡ kept h + 1
Takes-kept (takes_hello hello k empty d e) = ground arith
Takes-kept (takes_offer offer k empty d e) = ground arith

-- The progress of a handshake by a packet that is not refused: a control packet of one whole frame
-- with a newer sequence number.
pub record Progress (h : HostHandshake) (p : Packet) (h' : HostHandshake) : Type 0 where
  pub frame : Frame
  pub channel : p.channel ≡ Channel.control
  pub read : decode_prefix p.payload ≡ ok (complete frame (packet_len p))
  pub newer : IsNewer h.highest_display_sequence frame.header.sequence
  pub takes : Takes frame h h'

is_stale-IsNewer : (last : Option ℕ) (n : ℕ) → is_stale last n ≡ false → IsNewer last n
is_stale-IsNewer none n e = tt
is_stale-IsNewer (some last) n e = ground arith

read_control_ok :
    (p : Packet) (f : Frame)
    → read_control p ≡ ok f
    → (p.channel ≡ Channel.control) × (decode_prefix p.payload ≡ ok (complete f (packet_len p)))
unfolding read_control is_control whole_frame
read_control_ok p f e = ground arith

take_payload-Takes :
    (k : MessageType) (h g : HostHandshake) (f : Frame)
    → f.header.kind ≡ k
    → take_payload k (noted h f) f ≡ ok g
    → Takes f h g
unfolding take_payload
take_payload-Takes MessageType.hello h g f k e =
    elim (Result-cases (decode_payload {A = Hello} f)) [
      | inl (x, d) ↦ takes_hello x k (ground arith) d (ground arith)
      | inr (x, d) ↦ absurd (ground arith)
    ]
take_payload-Takes MessageType.capabilities h g f k e =
    elim (Result-cases (decode_payload {A = Capabilities} f)) [
      | inl (x, d) ↦ takes_offer x k (ground arith) d (ground arith)
      | inr (x, d) ↦ absurd (ground arith)
    ]
take_payload-Takes MessageType.display_config h g f k e = absurd (ground arith)
take_payload-Takes MessageType.video_frame h g f k e = absurd (ground arith)
take_payload-Takes MessageType.input h g f k e = absurd (ground arith)
take_payload-Takes MessageType.telemetry h g f k e = absurd (ground arith)
take_payload-Takes MessageType.ping h g f k e = absurd (ground arith)
take_payload-Takes MessageType.pong h g f k e = absurd (ground arith)
take_payload-Takes MessageType.error h g f k e = absurd (ground arith)

-- What the answer says: an established session has both payloads, and a handshake that goes on has
-- one of them.
abbrev pub Answers : HostHandshake → Option EstablishedHostSession → Type 0
Answers h none = kept h ≡ 1
Answers h (some e) = (kept h ≡ 2) × IsEstablished h e

unfoldable pub both_kept : HostHandshake → Bool
both_kept h = is_some h.display_hello && is_some h.display_capabilities

kept_both : (h : HostHandshake) → both_kept h ≡ true → kept h ≡ 2
unfolding both_kept
kept_both h e = ground arith

kept_one : (h : HostHandshake) → 1 ≤ kept h → both_kept h ≡ false → kept h ≡ 1
unfolding both_kept
kept_one h some_kept e = ground arith

pub settle_both :
    (h g : HostHandshake) → both_kept g ≡ true → settle h (ok g) ≡ (finished (establish_host g), g)
unfolding settle both_kept
settle_both h g e = rw e refl

pub settle_one : (h g : HostHandshake) → both_kept g ≡ false → settle h (ok g) ≡ (ok none, g)
unfolding settle both_kept
settle_one h g e = rw e refl

finished-eq_ok :
    (h : HostHandshake) (r : Result HandshakeError EstablishedHostSession)
    (o : Option EstablishedHostSession)
    → establish_host h ≡ r
    → finished r ≡ ok o
    → (e : EstablishedHostSession) × (o ≡ some e) × IsEstablished h e
finished-eq_ok h (ok e) o made f = (e, ground arith, establish_host-IsEstablished h e made)
finished-eq_ok h (err x) o made f = absurd (ground arith)

settle-Answers :
    (h g h' : HostHandshake) (o : Option EstablishedHostSession)
    → 1 ≤ kept g
    → settle h (ok g) ≡ (ok o, h')
    → (g ≡ h') × Answers g o
settle-Answers h g h' o some_kept e = elim (Bool-cases (both_kept g)) [
  | inl both ↦
      let f = sym (settle_both h g both) ∙ e in
      let (made, is_some, established) =
        finished-eq_ok g (establish_host g) o refl (ap (λ r. r.0) f) in
      (ap (λ r. r.1) f, subst (Answers g) (sym is_some) (kept_both g both, established))
  | inr one ↦
      let f = sym (settle_one h g one) ∙ e in
      let is_none : none ≡ o = ground arith in
      (ap (λ r. r.1) f, subst (Answers g) is_none (kept_one g some_kept one))
]

settle_refused :
    (h h' : HostHandshake) (x : HandshakeError) (o : Option EstablishedHostSession)
    → settle h (err x) ≢ (ok o, h')
unfolding settle
settle_refused h h' x o e = ground arith

pub accept_frame_newer :
    (h : HostHandshake) (f : Frame)
    → is_stale h.highest_display_sequence f.header.sequence ≡ false
    → accept_frame h f ≡ settle (noted h f) (take_payload f.header.kind (noted h f) f)
unfolding accept_frame
accept_frame_newer h f e = rw e refl

accept_frame_stale :
    (h : HostHandshake) (f : Frame)
    → is_stale h.highest_display_sequence f.header.sequence ≡ true
    → accept_frame h f ≡ (err (not_newer f.header.sequence), h)
unfolding accept_frame
accept_frame_stale h f e = rw e refl

accept_frame-Takes :
    (h h' : HostHandshake) (f : Frame) (o : Option EstablishedHostSession)
    → accept_frame h f ≡ (ok o, h')
    → IsNewer h.highest_display_sequence f.header.sequence × Takes f h h' × Answers h' o
accept_frame-Takes h h' f o e =
    elim (Bool-cases (is_stale h.highest_display_sequence f.header.sequence)) [
      | inl old ↦ absurd (cc (accept_frame_stale h f old))
      | inr newer ↦
          let settled = sym (accept_frame_newer h f newer) ∙ e in
          elim (Result-cases (take_payload f.header.kind (noted h f) f)) [
            | inr (x, t) ↦
                absurd
                  (settle_refused (noted h f) h' x o (sym (ap (settle (noted h f)) t) ∙ settled))
            | inl (g, t) ↦
                let one = take_payload-Takes f.header.kind h g f refl t in
                let a =
                  settle-Answers (noted h f) g h' o (omega (arith, Takes-kept one))
                    (sym (ap (settle (noted h f)) t) ∙ settled) in
                let (taken, answer) = subst (λ x. Takes f h x × Answers x o) a.0 (one, a.1) in
                (is_stale-IsNewer h.highest_display_sequence f.header.sequence newer, taken, answer)
          ]
    ]

-- A packet that a host handshake does not refuse is a control packet of exactly one whole frame,
-- whose sequence number is above the last and is noted, and whose hello or capabilities payload, of
-- which none was kept, is kept as it decodes, while nothing else of the handshake changes; the
-- answer is none with one payload kept, and with both an established session whose agreement,
-- configuration and opened session follow from the payloads.
pub accept-Progress :
    (h h' : HostHandshake) (p : Packet) (o : Option EstablishedHostSession)
    → accept h p ≡ (ok o, h')
    → Progress h p h' × Answers h' o
unfolding accept accept_read
accept-Progress h h' p o e = elim (Result-cases (read_control p)) [
  | inr (x, r) ↦ absurd (ground arith)
  | inl (f, r) ↦
      let (whole, decoded) = read_control_ok p f r in
      let (newer, taken, answer) = accept_frame-Takes h h' f o (sym (ap (accept_read h) r) ∙ e) in
      (record { frame = f; channel = whole; read = decoded; newer = newer; takes = taken }, answer)
]
