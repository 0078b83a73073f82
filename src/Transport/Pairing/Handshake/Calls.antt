-- ===== src/Transport/Pairing/Handshake/Calls.antt =====
-- The steps of the handshake one by one: what a step that succeeds did to the socket, and the steps
-- at a socket where no call fails.
use lado_flow.Base.{
  ℕ, ◌+◌, ◌≤◌, ◌≡◌, ◌≢◌, sym, ap, ◌∙◌, arith, Bool, false, List, ◌++◌, take, drop, length, ok,
  Result, le→ltb_false, take-append-drop, append_both, take-append, drop-append, length-take,
  length-append,
}
use lado_flow.Transport.Pairing.{PairingRecord, encode_record, decode_record, TetherPairingError}
use lado_flow.Transport.Pairing.Records.{
  IsRecord, decode_record-encode_record, length-encode_record,
}
use lado_flow.Transport.Pairing.Handshake.{
  Socket, pure_step, after_step, bind_result-Step, write_all, read_exact, set_timeout,
  configure_pairing_timeouts, clear_pairing_timeouts, write_record, read_record,
}

-- Nothing arrived and nothing was written between two states.
pub record Same (s s' : Socket) : Type 0 where
  pub incoming : s'.incoming ≡ s.incoming
  pub written : s'.written ≡ s.written

-- One record was taken from what arrives.
pub record Took (r : PairingRecord) (s s' : Socket) : Type 0 where
  pub bytes : List ℕ
  pub arrived : s.incoming ≡ bytes ++ s'.incoming
  pub sized : length bytes ≡ 56
  pub decoded : decode_record bytes ≡ ok r
  pub written : s'.written ≡ s.written

pub record Wrote (r : PairingRecord) (s s' : Socket) : Type 0 where
  pub incoming : s'.incoming ≡ s.incoming
  pub written : s'.written ≡ s.written ++ encode_record r

pub pure_step_ok :
    {A : Type 0} (r : Result TetherPairingError A) (a : A) (s s' : Socket)
    → pure_step r s ≡ (ok a, s')
    → (r ≡ ok a) × (s' ≡ s)
pure_step_ok r a s s' e = (ap (λ p. p.0) e, sym (ap (λ p. p.1) e))

module _ (fails : ℕ → Bool) where
  pub configure_ok :
      (timeout : ℕ) (s s' : Socket)
      → configure_pairing_timeouts fails timeout s ≡ (ok tt, s')
      → (timeout ≢ 0) × Same s s'
  unfolding configure_pairing_timeouts set_timeout
  configure_ok timeout s s' e = ground arith

  pub clear_ok : (s s' : Socket) → clear_pairing_timeouts fails s ≡ (ok tt, s') → Same s s'
  unfolding clear_pairing_timeouts set_timeout
  clear_ok s s' e = ground arith

  pub write_record_ok :
      (r : PairingRecord) (s s' : Socket) → write_record fails r s ≡ (ok tt, s') → Wrote r s s'
  unfolding write_record write_all
  write_record_ok r s s' e = ground arith

  read_exact_ok :
      (n : ℕ) (bytes : List ℕ) (s s' : Socket)
      → read_exact fails n s ≡ (ok bytes, s')
      → (n ≤ length s.incoming)
        × (bytes ≡ take n s.incoming)
        × (s'.incoming ≡ drop n s.incoming)
        × (s'.written ≡ s.written)
  unfolding read_exact
  read_exact_ok n bytes s s' e = ground arith

  pub read_record_ok :
      (r : PairingRecord) (s s' : Socket) → read_record fails s ≡ (ok r, s') → Took r s s'
  unfolding read_record
  read_record_ok r s s' e =
      let f =
        bind_result-Step (read_exact fails 56) (λ bytes. pure_step (decode_record bytes)) s r s'
          e in
      let k = pure_step_ok (decode_record f.value) r f.socket s' f.more in
      let (enough, front, rest, same) = read_exact_ok 56 f.value s f.socket f.first in
      record {
        bytes = f.value;
        arrived =
            sym (
              append_both front (ap (λ t. t.incoming) k.1 ∙ rest) ∙ take-append-drop 56 s.incoming);
        sized = ap length front ∙ omega (arith, length-take 56 s.incoming);
        decoded = k.0;
        written = ap (λ t. t.written) k.1 ∙ same;
      }

  module _ (quiet : (n : ℕ) → fails n ≡ false) where
    pub configure_quiet :
        (timeout : ℕ) (s : Socket)
        → timeout ≢ 0
        → configure_pairing_timeouts fails timeout s ≡ (ok tt, record s { calls = s.calls + 1 + 1 })
    unfolding configure_pairing_timeouts set_timeout
    configure_quiet timeout s h = ground (arith, quiet s.calls, quiet (s.calls + 1))

    pub clear_quiet :
        (s : Socket)
        → clear_pairing_timeouts fails s ≡ (ok tt, record s { calls = s.calls + 1 + 1 })
    unfolding clear_pairing_timeouts set_timeout
    clear_quiet s = ground (arith, quiet s.calls, quiet (s.calls + 1))

    pub write_record_quiet :
        (r : PairingRecord) (s : Socket)
        → write_record fails r s
          ≡ (ok tt, record s { written = s.written ++ encode_record r; calls = s.calls + 1 })
    unfolding write_record write_all
    write_record_quiet r s = ground (arith, quiet s.calls)

    read_exact_quiet :
        (s : Socket) (bytes rest : List ℕ)
        → length bytes ≡ 56
        → s.incoming ≡ bytes ++ rest
        → read_exact fails 56 s ≡ (ok bytes, record s { incoming = rest; calls = s.calls + 1 })
    unfolding read_exact
    read_exact_quiet s bytes rest n e =
        let front : take 56 s.incoming ≡ bytes = ap (take 56) e ∙ take-append 56 bytes rest n in
        let back : drop 56 s.incoming ≡ rest = ap (drop 56) e ∙ drop-append 56 bytes rest n in
        let long : 56 ≤ length s.incoming = omega (arith, ap length e, length-append bytes rest) in
        rw (quiet s.calls, le→ltb_false (length s.incoming) 56 long) (cc (front, back))

    pub read_record_quiet :
        (r : PairingRecord) (s : Socket) (rest : List ℕ)
        → IsRecord r
        → s.incoming ≡ encode_record r ++ rest
        → read_record fails s ≡ (ok r, record s { incoming = rest; calls = s.calls + 1 })
    unfolding read_record
    read_record_quiet r s rest v e =
        after_step (read_exact fails 56) (λ bytes. pure_step (decode_record bytes)) s
          (encode_record r) (record s { incoming = rest; calls = s.calls + 1 })
          (read_exact_quiet s (encode_record r) rest (length-encode_record r v) e)
          (ap (λ d. pure_step d (record s { incoming = rest; calls = s.calls + 1 }))
            (decode_record-encode_record r v))
