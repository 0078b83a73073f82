-- ===== src/Transport/Pairing/Handshake/Agreement.antt =====
-- The two ends together: they accept each other with one token, and not with tokens whose proofs
-- differ.
use lado_flow.Base.{
  ℕ, ◌+◌, ◌≡◌, ◌≢◌, refl, sym, ap, ◌∙◌, arith, Bool, true, false, not, ◌&&◌, List, [], ◌∷◌, ◌++◌,
  append_both, length, ok, err, Result, Option, none, some, Option-cases, Bool-cases, inl, inr,
}
use lado_flow.Base
use mathlib.Core.List.{append-nil}
use lado_flow.Transport.Pairing.{
  zeros, same_bytes, PairingRecord, PairingRecordKind, kind_value, host_hello, display_hello,
  host_finished, display_finished, encode_record, TetherPairingError, non_canonical_record,
  authentication_failed,
}
use lado_flow.Transport.Pairing.Records.{same_bytes-eq, same_bytes_refl}
use lado_flow.Transport.Pairing.Handshake.{
  Socket, after_step, after_pure, transcript, configure_pairing_timeouts, write_record, read_record,
  validate_record_kind, pairing_tag, tag_result, verify_pairing_tag, verify_result, finished_record,
  validate_finished_record, finish_host, authenticate_host, finish_display, authenticate_display,
}
use lado_flow.Transport.Pairing.Handshake.Calls.{
  configure_quiet, clear_quiet, write_record_quiet, read_record_quiet,
}
use lado_flow.Transport.Pairing.Handshake.Host.{hello_record, finished}
use lado_flow.Transport.Pairing.Handshake.Display.{proof_record}

not_blank : (nonce : List ℕ) → nonce ≢ zeros 16 → same_bytes nonce (zeros 16) ≡ false
not_blank nonce h = elim (Bool-cases (same_bytes nonce (zeros 16))) [
  | inl e ↦ absurd (h (same_bytes-eq nonce (zeros 16) e))
  | inr e ↦ e
]

kind_accepted :
    (r : PairingRecord) (kind : PairingRecordKind)
    → r.kind ≡ kind_value kind
    → validate_record_kind r kind ≡ ok tt
unfolding validate_record_kind
kind_accepted r kind e = ground arith

module _ (mac : List ℕ → List ℕ → Option (List ℕ)) (token : List ℕ) where
  tag_made :
      (kind : PairingRecordKind) (hn dn tag : List ℕ)
      → mac token (transcript kind hn dn) ≡ some tag
      → pairing_tag mac token kind hn dn ≡ ok tag
  unfolding pairing_tag tag_result
  tag_made kind hn dn tag e = ap tag_result e

  record_made :
      (kind : PairingRecordKind) (hn dn tag : List ℕ)
      → mac token (transcript kind hn dn) ≡ some tag
      → finished_record mac token kind hn dn ≡ ok (finished kind tag)
  unfolding finished_record
  record_made kind hn dn tag e = rw (tag_made kind hn dn tag e) refl

  tag_verified :
      (kind : PairingRecordKind) (hn dn tag : List ℕ)
      → mac token (transcript kind hn dn) ≡ some tag
      → verify_pairing_tag mac token kind hn dn tag ≡ ok tt
  unfolding verify_pairing_tag verify_result
  tag_verified kind hn dn tag e =
      ap (verify_result tag) e ∙ ap (λ b. Base.guard b authentication_failed) (same_bytes_refl tag)

  finished_accepted :
      (kind : PairingRecordKind) (hn dn tag : List ℕ)
      → mac token (transcript kind hn dn) ≡ some tag
      → validate_finished_record mac token (finished kind tag) kind hn dn ≡ ok tt
  unfolding validate_finished_record
  finished_accepted kind hn dn tag e =
      rw (kind_accepted (finished kind tag) kind refl, same_bytes_refl (zeros 16))
        (tag_verified kind hn dn tag e)

  tag_refused :
      (kind : PairingRecordKind) (hn dn tag : List ℕ)
      → mac token (transcript kind hn dn) ≢ some tag
      → verify_pairing_tag mac token kind hn dn tag ≡ err authentication_failed
  unfolding verify_pairing_tag verify_result
  tag_refused kind hn dn tag h = elim (Option-cases (mac token (transcript kind hn dn))) [
    | inl e ↦ ap (verify_result tag) e
    | inr (expected, e) ↦ elim (Bool-cases (same_bytes expected tag)) [
      | inl same ↦ absurd (h (e ∙ ap some (same_bytes-eq expected tag same)))
      | inr other ↦ ap (verify_result tag) e ∙ ap (λ b. Base.guard b authentication_failed) other
    ]
  ]

-- The socket of one end before any call.
abbrev pub hears : List ℕ → Socket
hears bytes = record { incoming = bytes; written = []; calls = 0 }

-- What the two ends write, by the proofs that they send.
abbrev pub host_says : List ℕ → List ℕ → List ℕ
host_says nonce tag =
    encode_record (hello_record nonce) ++ encode_record (finished host_finished tag)

abbrev pub display_says : List ℕ → List ℕ → List ℕ → List ℕ
display_says nonce tag closing =
    encode_record (proof_record nonce tag) ++ encode_record (finished display_finished closing)

module _ (fails : ℕ → Bool) (quiet : (n : ℕ) → fails n ≡ false)
    (mac : List ℕ → List ℕ → Option (List ℕ)) (token : List ℕ) (timeout : ℕ) (waits : timeout ≢ 0)
    (hn dn hello_tag host_tag display_tag : List ℕ)
    (hello_proof : mac token (transcript display_hello hn dn) ≡ some hello_tag)
    (host_proof : mac token (transcript host_finished hn dn) ≡ some host_tag)
    (display_proof : mac token (transcript display_finished hn dn) ≡ some display_tag)
    (hello_size : length hello_tag ≡ 32) (host_size : length host_tag ≡ 32)
    (display_size : length display_tag ≡ 32) (hn_size : length hn ≡ 16) (dn_size : length dn ≡ 16)
    (hn_nonzero : hn ≢ zeros 16) (dn_nonzero : dn ≢ zeros 16) where
  host_accepts :
      authenticate_host fails mac token timeout hn (hears (display_says dn hello_tag display_tag))
      ≡ (ok tt, record { incoming = []; written = host_says hn host_tag; calls = 8 })
  unfolding authenticate_host finish_host
  host_accepts =
      after_step (configure_pairing_timeouts fails timeout) _ _ tt _
        (configure_quiet fails quiet timeout _ waits)
        (after_step (write_record fails (hello_record hn)) _ _ tt _
          (write_record_quiet fails quiet (hello_record hn) _)
          (after_step (read_record fails) _ _ (proof_record dn hello_tag) _
            (read_record_quiet fails quiet (proof_record dn hello_tag) _
              (encode_record (finished display_finished display_tag))
              (record { nonce = dn_size; tag = hello_size }) refl)
            (after_pure (validate_record_kind (proof_record dn hello_tag) display_hello) _ _ tt
              (kind_accepted (proof_record dn hello_tag) display_hello refl)
              (after_pure (Base.guard (not (same_bytes dn (zeros 16))) non_canonical_record) _ _ tt
                (rw (not_blank dn dn_nonzero) refl)
                (after_pure (verify_pairing_tag mac token display_hello hn dn hello_tag) _ _ tt
                  (tag_verified mac token display_hello hn dn hello_tag hello_proof)
                  (after_pure (finished_record mac token host_finished hn dn) _ _
                    (finished host_finished host_tag)
                    (record_made mac token host_finished hn dn host_tag host_proof)
                    (after_step (write_record fails (finished host_finished host_tag)) _ _ tt _
                      (write_record_quiet fails quiet (finished host_finished host_tag) _)
                      (after_step (read_record fails) _ _ (finished display_finished display_tag) _
                        (read_record_quiet fails quiet (finished display_finished display_tag) _ []
                          (record { nonce = refl; tag = display_size }) (sym (append-nil _)))
                        (after_pure
                          (validate_finished_record mac token
                            (finished display_finished display_tag) display_finished hn dn)
                          _ _ tt
                          (finished_accepted mac token display_finished hn dn display_tag
                            display_proof)
                          (clear_quiet fails quiet _))))))))))

  display_accepts :
      authenticate_display fails mac token timeout dn (hears (host_says hn host_tag)) ≡ (
        ok tt,
        record { incoming = []; written = display_says dn hello_tag display_tag; calls = 8 },
      )
  unfolding authenticate_display finish_display
  display_accepts =
      after_step (configure_pairing_timeouts fails timeout) _ _ tt _
        (configure_quiet fails quiet timeout _ waits)
        (after_step (read_record fails) _ _ (hello_record hn) _
          (read_record_quiet fails quiet (hello_record hn) _
            (encode_record (finished host_finished host_tag))
            (record { nonce = hn_size; tag = refl }) refl)
          (after_pure (validate_record_kind (hello_record hn) host_hello) _ _ tt
            (kind_accepted (hello_record hn) host_hello refl)
            (after_pure
              (Base.guard (not (same_bytes hn (zeros 16)) && same_bytes (zeros 32) (zeros 32))
                non_canonical_record)
              _ _ tt (rw (not_blank hn hn_nonzero, same_bytes_refl (zeros 32)) refl)
              (after_pure (pairing_tag mac token display_hello hn dn) _ _ hello_tag
                (tag_made mac token display_hello hn dn hello_tag hello_proof)
                (after_step (write_record fails (proof_record dn hello_tag)) _ _ tt _
                  (write_record_quiet fails quiet (proof_record dn hello_tag) _)
                  (after_step (read_record fails) _ _ (finished host_finished host_tag) _
                    (read_record_quiet fails quiet (finished host_finished host_tag) _ []
                      (record { nonce = refl; tag = host_size }) (sym (append-nil _)))
                    (after_pure
                      (validate_finished_record mac token (finished host_finished host_tag)
                        host_finished hn dn)
                      _ _ tt (finished_accepted mac token host_finished hn dn host_tag host_proof)
                      (after_pure (finished_record mac token display_finished hn dn) _ _
                        (finished display_finished display_tag)
                        (record_made mac token display_finished hn dn display_tag display_proof)
                        (after_step (write_record fails (finished display_finished display_tag)) _ _
                          tt _
                          (write_record_quiet fails quiet (finished display_finished display_tag) _)
                          (clear_quiet fails quiet _))))))))))

-- Two ends that accept, each hearing what the other writes.
pub record Paired (host display : Socket → Result TetherPairingError (Unit {0}) × Socket)
    : Type 0 where
  pub to_host : List ℕ
  pub to_display : List ℕ
  pub host_accepts :
      host (hears to_host) ≡ (ok tt, record { incoming = []; written = to_display; calls = 8 })
  pub display_accepts :
      display (hears to_display) ≡ (ok tt, record { incoming = []; written = to_host; calls = 8 })

-- An HMAC takes every key and makes a tag of 32 bytes.
pub record IsMac (mac : List ℕ → List ℕ → Option (List ℕ)) : Type 0 where
  pub tag : List ℕ → List ℕ → List ℕ
  pub answers : (key message : List ℕ) → mac key message ≡ some (tag key message)
  pub sized : (key message : List ℕ) → length (tag key message) ≡ 32

module _ (fails : ℕ → Bool) (mac : List ℕ → List ℕ → Option (List ℕ)) (timeout : ℕ) where
  -- With no failing call, a nonzero timeout, a MAC that takes every key and makes tags of 32 bytes,
  -- one token and two nonces of 16 bytes that are not zero, both sides succeed when each hears what
  -- the other writes, and read all of it.
  pub authenticate-Paired :
      (token hn dn : List ℕ)
      → ((n : ℕ) → fails n ≡ false)
      → IsMac mac
      → timeout ≢ 0
      → length hn ≡ 16
      → length dn ≡ 16
      → hn ≢ zeros 16
      → dn ≢ zeros 16
      → Paired
          (authenticate_host fails mac token timeout hn)
          (authenticate_display fails mac token timeout dn)
  authenticate-Paired token hn dn quiet m waits hn_size dn_size hn_nonzero dn_nonzero =
      let tag = λ (kind : PairingRecordKind). m.tag token (transcript kind hn dn) in
      let proof = λ (kind : PairingRecordKind). m.answers token (transcript kind hn dn) in
      let size = λ (kind : PairingRecordKind). m.sized token (transcript kind hn dn) in
      record {
        to_host = display_says dn (tag display_hello) (tag display_finished);
        to_display = host_says hn (tag host_finished);
        host_accepts =
            host_accepts fails quiet mac token timeout waits hn dn _ _ _ (proof display_hello)
              (proof host_finished) (proof display_finished) (size display_hello)
              (size host_finished) (size display_finished) hn_size dn_size hn_nonzero dn_nonzero;
        display_accepts =
            display_accepts fails quiet mac token timeout waits hn dn _ _ _ (proof display_hello)
              (proof host_finished) (proof display_finished) (size display_hello)
              (size host_finished) (size display_finished) hn_size dn_size hn_nonzero dn_nonzero;
      }

  -- With no failing call and a nonzero timeout, a host that hears a display hello with a nonce that
  -- is not zero and a tag of 32 bytes that is not the MAC of the transcript refuses it as
  -- unauthenticated, and writes no more than its hello.
  pub authenticate_host_refuses :
      (token hn dn tag : List ℕ) (rest : List ℕ)
      → ((n : ℕ) → fails n ≡ false)
      → timeout ≢ 0
      → length dn ≡ 16
      → dn ≢ zeros 16
      → length tag ≡ 32
      → mac token (transcript display_hello hn dn) ≢ some tag
      → authenticate_host fails mac token timeout hn
          (hears (encode_record (proof_record dn tag) ++ rest))
        ≡ (
          err authentication_failed,
          record { incoming = rest; written = encode_record (hello_record hn); calls = 4 },
        )
  unfolding authenticate_host finish_host
  authenticate_host_refuses token hn dn tag rest quiet waits dn_size dn_nonzero tag_size differs =
      after_step (configure_pairing_timeouts fails timeout) _ _ tt _
        (configure_quiet fails quiet timeout _ waits)
        (after_step (write_record fails (hello_record hn)) _ _ tt _
          (write_record_quiet fails quiet (hello_record hn) _)
          (after_step (read_record fails) _ _ (proof_record dn tag) _
            (read_record_quiet fails quiet (proof_record dn tag) _ rest
              (record { nonce = dn_size; tag = tag_size }) refl)
            (after_pure (validate_record_kind (proof_record dn tag) display_hello) _ _ tt
              (kind_accepted (proof_record dn tag) display_hello refl)
              (after_pure (Base.guard (not (same_bytes dn (zeros 16))) non_canonical_record) _ _ tt
                (rw (not_blank dn dn_nonzero) refl)
                (rw (tag_refused mac token display_hello hn dn tag differs) refl)))))
