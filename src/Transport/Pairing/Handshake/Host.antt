-- ===== src/Transport/Pairing/Handshake/Host.antt =====
-- What the host accepts.
use lado_flow.Base.{
  ℕ, ◌+◌, ◌≤◌, ◌<◌, ◌≡◌, ◌≢◌, refl, sym, ap, ◌∙◌, arith, Bool, true, false, not, List, [], ◌∷◌,
  ◌++◌, take, drop, length, ok, err, Result, Option, none, some, Option-cases, Bool-cases, inl, inr,
}
use lado_flow.Base
use lado_flow.Transport.Pairing.{
  zeros, same_bytes, PairingRecord, PairingRecordKind, kind_value, display_hello, host_finished,
  display_finished, encode_record, decode_record, non_canonical_record,
}
use lado_flow.Transport.Pairing.Records.{same_bytes-eq, same_bytes_refl}
use lado_flow.Transport.Pairing.Handshake.{
  Socket, bind_result-Step, pure_result, transcript, configure_pairing_timeouts, write_record,
  read_record, validate_record_kind, pairing_tag, verify_pairing_tag, verify_result, tag_result,
  finished_record, validate_finished_record, finish_host, authenticate_host,
}
use lado_flow.Transport.Pairing.Handshake.Calls.{
  configure_ok, clear_ok, write_record_ok, read_record_ok,
}

abbrev pub hello_record : List ℕ → PairingRecord
hello_record nonce = record { kind = 1; nonce = nonce; tag = zeros 32 }

abbrev pub finished : PairingRecordKind → List ℕ → PairingRecord
finished kind tag = record { kind = kind_value kind; nonce = zeros 16; tag = tag }

module _ (mac : List ℕ → List ℕ → Option (List ℕ)) (token : List ℕ) where
  -- A record of the display's hello with a nonzero nonce and a proof of the token.
  pub record IsDisplayHello (host_nonce : List ℕ) (r : PairingRecord) : Type 0 where
    pub kind : r.kind ≡ 2
    pub nonzero : r.nonce ≢ zeros 16
    pub proof : mac token (transcript display_hello host_nonce r.nonce) ≡ some r.tag

  -- A finished record of one side with its proof of the token.
  pub record IsFinished (kind : PairingRecordKind) (host_nonce display_nonce : List ℕ)
      (r : PairingRecord) : Type 0 where
    pub kind_matches : r.kind ≡ kind_value kind
    pub blank : r.nonce ≡ zeros 16
    pub proof : mac token (transcript kind host_nonce display_nonce) ≡ some r.tag

  pub verify_pairing_tag_ok :
      (kind : PairingRecordKind) (hn dn tag : List ℕ) (u : Unit {0})
      → verify_pairing_tag mac token kind hn dn tag ≡ ok u
      → mac token (transcript kind hn dn) ≡ some tag
  unfolding verify_pairing_tag verify_result
  verify_pairing_tag_ok kind hn dn tag u e =
      elim (Option-cases (mac token (transcript kind hn dn))) [
        | inl missing ↦ absurd (ground arith)
        | inr (expected, found) ↦ found ∙ ap some (same_bytes-eq expected tag (ground arith))
      ]

  pub validate_finished_record_ok :
      (r : PairingRecord) (kind : PairingRecordKind) (hn dn : List ℕ) (u : Unit {0})
      → validate_finished_record mac token r kind hn dn ≡ ok u
      → IsFinished kind hn dn r
  unfolding validate_finished_record validate_record_kind
  validate_finished_record_ok r kind hn dn u e =
      ground (arith, same_bytes-eq r.nonce (zeros 16), verify_pairing_tag_ok kind hn dn r.tag tt)

  pub pairing_tag_ok :
      (kind : PairingRecordKind) (hn dn tag : List ℕ)
      → pairing_tag mac token kind hn dn ≡ ok tag
      → mac token (transcript kind hn dn) ≡ some tag
  unfolding pairing_tag tag_result
  pairing_tag_ok kind hn dn tag e = ground arith

  pub finished_record_ok :
      (kind : PairingRecordKind) (hn dn : List ℕ) (r : PairingRecord)
      → finished_record mac token kind hn dn ≡ ok r
      → (r ≡ finished kind r.tag) × (mac token (transcript kind hn dn) ≡ some r.tag)
  unfolding finished_record
  finished_record_ok kind hn dn r e = elim (Base.Result-cases (pairing_tag mac token kind hn dn)) [
    | inl (tag, f) ↦ ground (arith, pairing_tag_ok kind hn dn tag f)
    | inr (x, f) ↦ absurd (ground arith)
  ]

  greeting :
      (hn : List ℕ) (hello : PairingRecord)
      → validate_record_kind hello display_hello ≡ ok tt
      → Base.guard (not (same_bytes hello.nonce (zeros 16))) non_canonical_record ≡ ok tt
      → verify_pairing_tag mac token display_hello hn hello.nonce hello.tag ≡ ok tt
      → IsDisplayHello hn hello
  unfolding validate_record_kind
  greeting hn hello a b c = record {
    kind = ground arith;
    nonzero = λ e. ground (arith, same_bytes_refl (zeros 16), ap (λ n. same_bytes n (zeros 16)) e);
    proof = verify_pairing_tag_ok display_hello hn hello.nonce hello.tag tt c;
  }

  -- What the host does from a hello on when it accepts.
  record Finishes (host_nonce : List ℕ) (hello : PairingRecord) (s s' : Socket) : Type 0 where
    greeted : IsDisplayHello host_nonce hello
    proof : List ℕ
    own : mac token (transcript host_finished host_nonce hello.nonce) ≡ some proof
    answer : PairingRecord
    answered : IsFinished display_finished host_nonce hello.nonce answer
    bytes : List ℕ
    arrived : s.incoming ≡ bytes ++ s'.incoming
    sized : length bytes ≡ 56
    decoded : decode_record bytes ≡ ok answer
    written : s'.written ≡ s.written ++ encode_record (finished host_finished proof)

  -- What the host has read and written when it accepts.
  pub record HostAccepts (host_nonce : List ℕ) (s s' : Socket) : Type 0 where
    pub hello : PairingRecord
    pub answer : PairingRecord
    pub proof : List ℕ
    pub greeted : IsDisplayHello host_nonce hello
    pub answered : IsFinished display_finished host_nonce hello.nonce answer
    pub own : mac token (transcript host_finished host_nonce hello.nonce) ≡ some proof
    pub first : List ℕ
    pub second : List ℕ
    pub arrived : s.incoming ≡ first ++ (second ++ s'.incoming)
    pub sizes : (length first ≡ 56) × (length second ≡ 56)
    pub first_is : decode_record first ≡ ok hello
    pub second_is : decode_record second ≡ ok answer
    pub written :
        s'.written
        ≡ (s.written ++ encode_record (hello_record host_nonce))
          ++ encode_record (finished host_finished proof)

  module _ (fails : ℕ → Bool) (timeout : ℕ) where
    finish_host-Finishes :
        (hn : List ℕ) (hello : PairingRecord) (s s' : Socket)
        → finish_host fails mac token timeout hn hello s ≡ (ok tt, s')
        → Finishes hn hello s s'
    unfolding finish_host
    finish_host-Finishes hn hello s s' e =
        let p4 = pure_result (validate_record_kind hello display_hello) _ s tt s' e in
        let p5 =
          pure_result (Base.guard (not (same_bytes hello.nonce (zeros 16))) non_canonical_record) _
            s tt s' p4.2 in
        let p6 =
          pure_result (verify_pairing_tag mac token display_hello hn hello.nonce hello.tag) _ s tt
            s' p5.2 in
        let p7 =
          pure_result (finished_record mac token host_finished hn hello.nonce) _ s tt s' p6.2 in
        let s8 = bind_result-Step (write_record fails p7.0) _ s tt s' p7.2 in
        let s9 = bind_result-Step (read_record fails) _ s8.socket tt s' s8.more in
        let p10 =
          pure_result (validate_finished_record mac token s9.value display_finished hn hello.nonce)
            _ s9.socket tt s' s9.more in
        let made = finished_record_ok host_finished hn hello.nonce p7.0 p7.1 in
        let wrote = write_record_ok fails p7.0 s s8.socket s8.first in
        let took = read_record_ok fails s9.value s8.socket s9.socket s9.first in
        let ended = clear_ok fails s9.socket s' p10.2 in
        record {
          greeted = greeting hn hello p4.1 p5.1 p6.1;
          proof = p7.0.tag;
          own = made.1;
          answer = s9.value;
          answered = validate_finished_record_ok s9.value display_finished hn hello.nonce tt p10.1;
          bytes = took.bytes;
          arrived = sym wrote.incoming ∙ took.arrived ∙ ap (◌++◌ took.bytes) (sym ended.incoming);
          sized = took.sized;
          decoded = took.decoded;
          written =
              ended.written
              ∙ took.written
              ∙ wrote.written
              ∙ ap (λ r. s.written ++ encode_record r) made.0;
        }

    -- Whatever socket calls fail and whatever the MAC, a host that succeeds has read exactly two
    -- records of 56 bytes, a display hello whose nonce is not all zeros and a closing record, both
    -- authenticated under the token for the two nonces, and has written its hello and its own
    -- authenticated closing record, and nothing else.
    pub authenticate_host-HostAccepts :
        (hn : List ℕ) (s s' : Socket)
        → authenticate_host fails mac token timeout hn s ≡ (ok tt, s')
        → HostAccepts hn s s'
    unfolding authenticate_host
    authenticate_host-HostAccepts hn s s' e =
        let s1 = bind_result-Step (configure_pairing_timeouts fails timeout) _ s tt s' e in
        let s2 =
          bind_result-Step (write_record fails (hello_record hn)) _ s1.socket tt s' s1.more in
        let s3 = bind_result-Step (read_record fails) _ s2.socket tt s' s2.more in
        let f = finish_host-Finishes hn s3.value s3.socket s' s3.more in
        let started = configure_ok fails timeout s s1.socket s1.first in
        let wrote = write_record_ok fails (hello_record hn) s1.socket s2.socket s2.first in
        let took = read_record_ok fails s3.value s2.socket s3.socket s3.first in
        record {
          hello = s3.value;
          answer = f.answer;
          proof = f.proof;
          greeted = f.greeted;
          answered = f.answered;
          own = f.own;
          first = took.bytes;
          second = f.bytes;
          arrived =
              sym (started.1.incoming)
              ∙ sym wrote.incoming
              ∙ took.arrived
              ∙ ap (◌++◌ took.bytes) f.arrived;
          sizes = (took.sized, f.sized);
          first_is = took.decoded;
          second_is = f.decoded;
          written =
              f.written
              ∙ ap (λ w. w ++ encode_record (finished host_finished f.proof))
                  (took.written
                    ∙ wrote.written
                    ∙ ap (λ w. w ++ encode_record (hello_record hn)) started.1.written);
        }
