-- ===== src/Transport/Pairing/Handshake/Display.antt =====
-- What the display accepts.
use lado_flow.Base.{
  ℕ, ◌+◌, ◌≡◌, ◌≢◌, refl, sym, ap, ◌∙◌, arith, Bool, true, false, not, ◌&&◌, List, [], ◌∷◌, ◌++◌,
  append_both, length, ok, err, Result, Option, none, some,
}
use lado_flow.Base
use lado_flow.Transport.Pairing.{
  zeros, same_bytes, PairingRecord, host_hello, display_hello, host_finished, display_finished,
  encode_record, decode_record, non_canonical_record,
}
use lado_flow.Transport.Pairing.Records.{same_bytes-eq, same_bytes_refl}
use lado_flow.Transport.Pairing.Handshake.{
  Socket, bind_result-Step, pure_result, transcript, configure_pairing_timeouts, write_record,
  read_record, validate_record_kind, pairing_tag, finished_record, validate_finished_record,
  finish_display, authenticate_display,
}
use lado_flow.Transport.Pairing.Handshake.Calls.{
  configure_ok, clear_ok, write_record_ok, read_record_ok,
}
use lado_flow.Transport.Pairing.Handshake.Host.{
  finished, IsFinished, pairing_tag_ok, finished_record_ok, validate_finished_record_ok,
}

-- The display's hello with its proof.
abbrev pub proof_record : List ℕ → List ℕ → PairingRecord
proof_record nonce tag = record { kind = 2; nonce = nonce; tag = tag }

-- A hello of the host: a nonce that is not all zeros, and no proof.
pub record IsHostHello (r : PairingRecord) : Type 0 where
  pub kind : r.kind ≡ 1
  pub nonzero : r.nonce ≢ zeros 16
  pub blank : r.tag ≡ zeros 32

greeting :
    (hello : PairingRecord)
    → validate_record_kind hello host_hello ≡ ok tt
    → Base.guard
        (not (same_bytes hello.nonce (zeros 16)) && same_bytes hello.tag (zeros 32))
        non_canonical_record
      ≡ ok tt
    → IsHostHello hello
unfolding validate_record_kind
greeting hello a b = record {
  kind = ground arith;
  nonzero = λ e. ground (arith, same_bytes_refl (zeros 16), ap (λ n. same_bytes n (zeros 16)) e);
  blank = same_bytes-eq hello.tag (zeros 32) (ground arith);
}

module _ (mac : List ℕ → List ℕ → Option (List ℕ)) (token : List ℕ) where
  -- What the display does from a hello on when it accepts.
  record Finishes (display_nonce : List ℕ) (hello : PairingRecord) (s s' : Socket) : Type 0 where
    greeted : IsHostHello hello
    proof : List ℕ
    own : mac token (transcript display_hello hello.nonce display_nonce) ≡ some proof
    answer : PairingRecord
    answered : IsFinished mac token host_finished hello.nonce display_nonce answer
    closing : List ℕ
    closes : mac token (transcript display_finished hello.nonce display_nonce) ≡ some closing
    bytes : List ℕ
    arrived : s.incoming ≡ bytes ++ s'.incoming
    sized : length bytes ≡ 56
    decoded : decode_record bytes ≡ ok answer
    written :
        s'.written
        ≡ (s.written ++ encode_record (proof_record display_nonce proof))
          ++ encode_record (finished display_finished closing)

  -- What the display has read and written when it accepts.
  pub record DisplayAccepts (display_nonce : List ℕ) (s s' : Socket) : Type 0 where
    pub hello : PairingRecord
    pub answer : PairingRecord
    pub proof : List ℕ
    pub closing : List ℕ
    pub greeted : IsHostHello hello
    pub answered : IsFinished mac token host_finished hello.nonce display_nonce answer
    pub own : mac token (transcript display_hello hello.nonce display_nonce) ≡ some proof
    pub closes : mac token (transcript display_finished hello.nonce display_nonce) ≡ some closing
    pub first : List ℕ
    pub second : List ℕ
    pub arrived : s.incoming ≡ first ++ (second ++ s'.incoming)
    pub sizes : (length first ≡ 56) × (length second ≡ 56)
    pub first_is : decode_record first ≡ ok hello
    pub second_is : decode_record second ≡ ok answer
    pub written :
        s'.written
        ≡ (s.written ++ encode_record (proof_record display_nonce proof))
          ++ encode_record (finished display_finished closing)

  module _ (fails : ℕ → Bool) (timeout : ℕ) where
    finish_display-Finishes :
        (dn : List ℕ) (hello : PairingRecord) (s s' : Socket)
        → finish_display fails mac token timeout dn hello s ≡ (ok tt, s')
        → Finishes dn hello s s'
    unfolding finish_display
    finish_display-Finishes dn hello s s' e =
        let kind = pure_result (validate_record_kind hello host_hello) _ s tt s' e in
        let blank =
          pure_result
            (Base.guard (not (same_bytes hello.nonce (zeros 16)) && same_bytes hello.tag (zeros 32))
              non_canonical_record)
            _ s tt s' kind.2 in
        let tag =
          pure_result (pairing_tag mac token display_hello hello.nonce dn) _ s tt s' blank.2 in
        let sent = bind_result-Step (write_record fails (proof_record dn tag.0)) _ s tt s' tag.2 in
        let read = bind_result-Step (read_record fails) _ sent.socket tt s' sent.more in
        let valid =
          pure_result (validate_finished_record mac token read.value host_finished hello.nonce dn) _
            read.socket tt s' read.more in
        let made =
          pure_result (finished_record mac token display_finished hello.nonce dn) _ read.socket tt
            s' valid.2 in
        let last = bind_result-Step (write_record fails made.0) _ read.socket tt s' made.2 in
        let is_made = finished_record_ok mac token display_finished hello.nonce dn made.0 made.1 in
        let wrote = write_record_ok fails (proof_record dn tag.0) s sent.socket sent.first in
        let took = read_record_ok fails read.value sent.socket read.socket read.first in
        let wrote' = write_record_ok fails made.0 read.socket last.socket last.first in
        let ended = clear_ok fails last.socket s' last.more in
        record {
          greeted = greeting hello kind.1 blank.1;
          proof = tag.0;
          own = pairing_tag_ok mac token display_hello hello.nonce dn tag.0 tag.1;
          answer = read.value;
          answered =
              validate_finished_record_ok mac token read.value host_finished hello.nonce dn tt
                valid.1;
          closing = made.0.tag;
          closes = is_made.1;
          bytes = took.bytes;
          arrived =
              sym wrote.incoming
              ∙ took.arrived
              ∙ ap (◌++◌ took.bytes) (sym wrote'.incoming ∙ sym ended.incoming);
          sized = took.sized;
          decoded = took.decoded;
          written =
              ended.written
              ∙ wrote'.written
              ∙ append_both (took.written ∙ wrote.written) (ap encode_record is_made.0);
        }

    -- Whatever socket calls fail and whatever the MAC, a display that succeeds has read exactly two
    -- records of 56 bytes, a host hello with a nonce that is not all zeros and an all-zero tag, and
    -- a closing record authenticated under the token for the two nonces, and has written its own
    -- hello and closing record with their tags, and nothing else.
    pub authenticate_display-DisplayAccepts :
        (dn : List ℕ) (s s' : Socket)
        → authenticate_display fails mac token timeout dn s ≡ (ok tt, s')
        → DisplayAccepts dn s s'
    unfolding authenticate_display
    authenticate_display-DisplayAccepts dn s s' e =
        let s1 = bind_result-Step (configure_pairing_timeouts fails timeout) _ s tt s' e in
        let s2 = bind_result-Step (read_record fails) _ s1.socket tt s' s1.more in
        let f = finish_display-Finishes dn s2.value s2.socket s' s2.more in
        let started = configure_ok fails timeout s s1.socket s1.first in
        let took = read_record_ok fails s2.value s1.socket s2.socket s2.first in
        record {
          hello = s2.value;
          answer = f.answer;
          proof = f.proof;
          closing = f.closing;
          greeted = f.greeted;
          answered = f.answered;
          own = f.own;
          closes = f.closes;
          first = took.bytes;
          second = f.bytes;
          arrived = sym (started.1.incoming) ∙ took.arrived ∙ ap (◌++◌ took.bytes) f.arrived;
          sizes = (took.sized, f.sized);
          first_is = took.decoded;
          second_is = f.decoded;
          written =
              f.written
              ∙ ap
                  (λ w.
                    (w ++ encode_record (proof_record dn f.proof))
                    ++ encode_record (finished display_finished f.closing))
                  (took.written ∙ started.1.written);
        }
