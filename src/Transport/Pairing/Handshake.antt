-- ===== src/Transport/Pairing/Handshake.antt =====
-- crates/ladoflow-transport/src/pairing.rs: the four records that the host and the display exchange.
-- A socket is what arrives at it, what was written to it and how many calls were made of it; the
-- parameter `fails` says which of the calls return an error. HMAC-SHA-256 is the parameter `mac`.
pub mod Calls
pub mod Host
pub mod Display
pub mod Agreement
mod Examples
use lado_flow.Base.{
  ◌≡◌, refl, ap, ◌∙◌, arith, ℕ, zero, suc, ◌+◌, ◌==◌, ◌&&◌, not, Bool, true, false, List, [], ◌∷◌,
  ◌++◌, if◌then◌else◌, ltb, length, take, drop, Result, ok, err, Option, none, some,
}
use lado_flow.Base
use lado_flow.Base.Bytes.{be16}
use lado_flow.Transport.Pairing.{
  pairing_version, record_len, nonce_len, tag_len, zeros, same_bytes, TetherPairingError,
  zero_timeout, random, io, unexpected_kind, non_canonical_record, authentication_failed,
  PairingRecordKind, host_hello, display_hello, host_finished, display_finished, kind_value,
  PairingRecord, encode_record, decode_record,
}

pub record Socket : Type 0 where
  pub incoming : List ℕ
  pub written : List ℕ
  pub calls : ℕ

abbrev pub Io : Type 0 → Type 0
Io A = Socket → Result TetherPairingError A × Socket

-- The `?` of a step, by cases on its result.
abbrev pub bind_result :
    {A B : Type 0}
    → (A → Io B)
    → Result TetherPairingError A × Socket
    → Result TetherPairingError B × Socket
bind_result f (ok a, s) = f a s
bind_result f (err e, s) = (err e, s)

infixl 5 ◌>>=◌ ◌>>◌
abbrev pub ◌>>=◌ : {A B : Type 0} → Io A → (A → Io B) → Io B
◌>>=◌ m f s = bind_result f (m s)

abbrev pub ◌>>◌ : {B : Type 0} → Io (Unit {0}) → Io B → Io B
m >> k = m >>= λ _. k

-- A step that does no I/O.
abbrev pub pure_step : {A : Type 0} → Result TetherPairingError A → Io A
pure_step r s = (r, s)

-- A step that succeeds, and the rest of the block behind it.
pub after_step :
    {A B : Type 0} (m : Io A) (f : A → Io B) (s : Socket) (a : A) (s' : Socket)
    {r : Result TetherPairingError B × Socket}
    → m s ≡ (ok a, s')
    → f a s' ≡ r
    → (m >>= f) s ≡ r
after_step m f s a s' e h = ap (bind_result f) e ∙ h

pub after_pure :
    {A B : Type 0} (r : Result TetherPairingError A) (f : A → Io B) (s : Socket) (a : A)
    {q : Result TetherPairingError B × Socket}
    → r ≡ ok a
    → f a s ≡ q
    → (pure_step r >>= f) s ≡ q
after_pure r f s a e h = ap (λ r'. bind_result f (r', s)) e ∙ h

-- What a block that succeeds says of its first step.
pub record Step {A B : Type 0} (m : Io A) (f : A → Io B) (s : Socket)
    (r : Result TetherPairingError B × Socket) : Type 0 where
  pub value : A
  pub socket : Socket
  pub first : m s ≡ (ok value, socket)
  pub more : f value socket ≡ r

bind_result_ok :
    {A B : Type 0} (m : Io A) (f : A → Io B) (s : Socket) (b : B) (s' : Socket)
    (x : Result TetherPairingError A × Socket)
    → m s ≡ x
    → bind_result f x ≡ (ok b, s')
    → Step m f s (ok b, s')
bind_result_ok m f s b s' (ok a, t) e h = record { value = a; socket = t; first = e; more = h }
bind_result_ok m f s b s' (err x, t) e h = absurd (ground arith)

pub bind_result-Step :
    {A B : Type 0} (m : Io A) (f : A → Io B) (s : Socket) (b : B) (s' : Socket)
    → (m >>= f) s ≡ (ok b, s')
    → Step m f s (ok b, s')
bind_result-Step m f s b s' h = bind_result_ok m f s b s' (m s) refl h

-- The same of a step that does no I/O.
pub pure_result :
    {A B : Type 0} (r : Result TetherPairingError A) (f : A → Io B) (s : Socket) (b : B)
    (s' : Socket)
    → bind_result f (r, s) ≡ (ok b, s')
    → (a : A) × (r ≡ ok a) × (f a s ≡ (ok b, s'))
pure_result (ok a) f s b s' h = (a, refl, h)
pure_result (err x) f s b s' h = absurd (ground arith)

-- The first draw of `getrandom::fill` that is not all zeros; a failed draw is `none`. No draw left
-- means that the loop has not ended.
unfoldable pub generate_nonce : List (Option (List ℕ)) → Option (Result TetherPairingError (List ℕ))
generate_nonce [] = none
generate_nonce (none ∷ draws) = some (err random)
generate_nonce (some nonce ∷ draws) =
    if same_bytes nonce (zeros nonce_len) then generate_nonce draws else some (ok nonce)

unfoldable pub validate_record_kind :
    PairingRecord → PairingRecordKind → Result TetherPairingError (Unit {0})
validate_record_kind record_read expected =
    if record_read.kind == kind_value expected
    then ok tt
    else err (unexpected_kind (kind_value expected) record_read.kind)

-- `b"LadoFlow USB tether pairing v1\0"`.
abbrev pub pairing_context : List ℕ
pairing_context =
    b'L' ∷ b'a' ∷ b'd' ∷ b'o' ∷ b'F' ∷ b'l' ∷ b'o' ∷ b'w' ∷ b' ' ∷ b'U' ∷ b'S' ∷ b'B' ∷ b' ' ∷ b't'
    ∷ b'e' ∷ b't' ∷ b'h' ∷ b'e' ∷ b'r' ∷ b' ' ∷ b'p' ∷ b'a' ∷ b'i' ∷ b'r' ∷ b'i' ∷ b'n' ∷ b'g'
    ∷ b' ' ∷ b'v' ∷ b'1' ∷ 0 ∷ []

-- The bytes that are authenticated, in the order of the `update` calls.
abbrev pub transcript : PairingRecordKind → List ℕ → List ℕ → List ℕ
transcript kind host_nonce display_nonce =
    pairing_context ++ (be16 pairing_version ++ (kind_value kind ∷ (host_nonce ++ display_nonce)))

-- The `map_err` of a refused key.
tag_result : Option (List ℕ) → Result TetherPairingError (List ℕ)
tag_result none = err authentication_failed
tag_result (some tag) = ok tag

verify_result : List ℕ → Option (List ℕ) → Result TetherPairingError (Unit {0})
verify_result tag none = err authentication_failed
verify_result tag (some expected) = Base.guard (same_bytes expected tag) authentication_failed

-- `new_from_slice` of the key and `finalize` of the message; `none` is a refused key.
module _ (mac : List ℕ → List ℕ → Option (List ℕ)) (token : List ℕ) where
  unfoldable pub pairing_tag :
      PairingRecordKind → List ℕ → List ℕ → Result TetherPairingError (List ℕ)
  unfolding tag_result
  pairing_tag kind host_nonce display_nonce =
      tag_result (mac token (transcript kind host_nonce display_nonce))

  unfoldable pub verify_pairing_tag :
      PairingRecordKind → List ℕ → List ℕ → List ℕ → Result TetherPairingError (Unit {0})
  unfolding verify_result
  verify_pairing_tag kind host_nonce display_nonce tag =
      verify_result tag (mac token (transcript kind host_nonce display_nonce))

  unfoldable pub finished_record :
      PairingRecordKind → List ℕ → List ℕ → Result TetherPairingError PairingRecord
  unfolding pairing_tag
  finished_record kind host_nonce display_nonce =
      Base.◌>>=◌ (pairing_tag kind host_nonce display_nonce)
        λ tag. ok (record { kind = kind_value kind; nonce = zeros nonce_len; tag = tag })

  unfoldable pub validate_finished_record :
      PairingRecord → PairingRecordKind → List ℕ → List ℕ → Result TetherPairingError (Unit {0})
  unfolding validate_record_kind verify_pairing_tag
  validate_finished_record record_read expected host_nonce display_nonce =
      Base.◌>>◌ (validate_record_kind record_read expected) (
        Base.◌>>◌ (Base.guard (same_bytes record_read.nonce (zeros nonce_len)) non_canonical_record)
          (verify_pairing_tag expected host_nonce display_nonce record_read.tag))

-- A nonce from the draws of the random source, and the rest with it.
abbrev pub with_nonce :
    (List ℕ → Io (Unit {0}))
    → List (Option (List ℕ))
    → Socket
    → Option (Result TetherPairingError (Unit {0}) × Socket)
with_nonce run draws s = elim (generate_nonce draws) [
  | none ↦ none
  | some (err e) ↦ some (err e, s)
  | some (ok nonce) ↦ some (run nonce s)
]

module _ (fails : ℕ → Bool) where
  -- One call of the socket: it is counted, and fails where the parameter says so.
  abbrev call : {A : Type 0} → Io A → Io A
  call m s =
      let s' = record s { calls = s.calls + 1 } in if fails s.calls then (err io, s') else m s'

  -- `write_all` and `read_exact`; a read past what arrives is an error.
  unfoldable pub write_all : List ℕ → Io (Unit {0})
  write_all bytes = call λ s. (ok tt, record s { written = s.written ++ bytes })

  unfoldable pub read_exact : ℕ → Io (List ℕ)
  read_exact n = call λ s.
      if ltb (length s.incoming) n
      then (err io, record s { incoming = [] })
      else (ok (take n s.incoming), record s { incoming = drop n s.incoming })

  -- `set_read_timeout` and `set_write_timeout`.
  unfoldable pub set_timeout : Io (Unit {0})
  set_timeout = call λ s. (ok tt, s)

  unfoldable pub configure_pairing_timeouts : ℕ → Io (Unit {0})
  unfolding set_timeout
  configure_pairing_timeouts timeout = do
    pure_step (Base.guard (not (timeout == 0)) zero_timeout)
    set_timeout
    set_timeout

  unfoldable pub clear_pairing_timeouts : Io (Unit {0})
  unfolding set_timeout
  clear_pairing_timeouts = do set_timeout; set_timeout

  unfoldable pub write_record : PairingRecord → Io (Unit {0})
  unfolding write_all
  write_record r = write_all (encode_record r)

  unfoldable pub read_record : Io PairingRecord
  unfolding read_exact
  read_record = do bytes ← read_exact record_len; pure_step (decode_record bytes)

  module _ (mac : List ℕ → List ℕ → Option (List ℕ)) (token : List ℕ) (timeout : ℕ) where
    -- `authenticate_tether_host_stream_with_nonce`, from the display's hello on.
    unfoldable pub finish_host : List ℕ → PairingRecord → Io (Unit {0})
    unfolding write_record read_record clear_pairing_timeouts
    finish_host host_nonce hello = do
      pure_step (validate_record_kind hello display_hello)
      pure_step (Base.guard (not (same_bytes hello.nonce (zeros nonce_len))) non_canonical_record)
      pure_step (verify_pairing_tag mac token display_hello host_nonce hello.nonce hello.tag)
      finished ← pure_step (finished_record mac token host_finished host_nonce hello.nonce)
      write_record finished
      answer ← read_record
      pure_step (validate_finished_record mac token answer display_finished host_nonce hello.nonce)
      clear_pairing_timeouts

    unfoldable pub authenticate_host : List ℕ → Io (Unit {0})
    unfolding configure_pairing_timeouts write_record read_record finish_host
    authenticate_host host_nonce = do
      configure_pairing_timeouts timeout
      write_record
          (record { kind = kind_value host_hello; nonce = host_nonce; tag = zeros tag_len })
      hello ← read_record
      finish_host host_nonce hello

    -- `authenticate_tether_display_stream_with_nonce`, from the host's hello on.
    unfoldable pub finish_display : List ℕ → PairingRecord → Io (Unit {0})
    unfolding write_record read_record clear_pairing_timeouts
    finish_display display_nonce hello = do
      pure_step (validate_record_kind hello host_hello)
      pure_step (
          Base.guard
            (not (same_bytes hello.nonce (zeros nonce_len)) && same_bytes hello.tag (zeros tag_len))
            non_canonical_record)
      tag ← pure_step (pairing_tag mac token display_hello hello.nonce display_nonce)
      write_record (record { kind = kind_value display_hello; nonce = display_nonce; tag = tag })
      finished ← read_record
      pure_step
          (validate_finished_record mac token finished host_finished hello.nonce display_nonce)
      answer ← pure_step (finished_record mac token display_finished hello.nonce display_nonce)
      write_record answer
      clear_pairing_timeouts

    unfoldable pub authenticate_display : List ℕ → Io (Unit {0})
    unfolding configure_pairing_timeouts read_record finish_display
    authenticate_display display_nonce = do
      configure_pairing_timeouts timeout
      hello ← read_record
      finish_display display_nonce hello

    unfoldable pub authenticate_tether_host_stream :
        List (Option (List ℕ)) → Socket → Option (Result TetherPairingError (Unit {0}) × Socket)
    authenticate_tether_host_stream = with_nonce authenticate_host

    unfoldable pub authenticate_tether_display_stream :
        List (Option (List ℕ)) → Socket → Option (Result TetherPairingError (Unit {0}) × Socket)
    authenticate_tether_display_stream = with_nonce authenticate_display
