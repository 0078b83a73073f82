-- ===== src/Transport/Pairing.antt =====
-- crates/ladoflow-transport/src/pairing.rs: the preface that authenticates a USB-tether socket.
pub mod Records
pub mod Handshake
pub mod Token
use lado_flow.Base.{
  ℕ, zero, suc, ◌+◌, ◌==◌, ◌&&◌, not, Bool, true, false, List, [], ◌∷◌, ◌++◌, if◌then◌else◌, take,
  drop, Result, ok, err, ◌>>=◌, ◌>>◌, guard, Option, none, some,
}
use lado_flow.Base.Bytes.{be16, read_u8, read_u16}

abbrev pub pairing_version : ℕ
pairing_version = 1

abbrev pub record_len : ℕ
record_len = 56

abbrev pub nonce_len : ℕ
nonce_len = 16

abbrev pub tag_len : ℕ
tag_len = 32

-- `*b"LDFP"`.
abbrev pub pairing_magic : List ℕ
pairing_magic = b'L' ∷ b'D' ∷ b'F' ∷ b'P' ∷ []

-- `[0; n]`.
abbrev pub zeros : ℕ → List ℕ
zeros zero = []
zeros (suc n) = 0 ∷ zeros n

-- `==` on byte arrays.
unfoldable pub same_bytes : List ℕ → List ℕ → Bool
same_bytes [] [] = true
same_bytes [] (y ∷ ys) = false
same_bytes (x ∷ xs) [] = false
same_bytes (x ∷ xs) (y ∷ ys) = x == y && same_bytes xs ys

-- What the text of `Random` and `Io` says is left out.
pub data TetherPairingError : Type 0 where
  zero_timeout random io bad_magic : TetherPairingError
  unsupported_version : (version : ℕ) → TetherPairingError
  unexpected_kind : (expected actual : ℕ) → TetherPairingError
  non_canonical_record authentication_failed : TetherPairingError

pub data PairingRecordKind : Type 0 where
  host_hello display_hello host_finished display_finished : PairingRecordKind

abbrev pub kind_value : PairingRecordKind → ℕ
kind_value host_hello = 1
kind_value display_hello = 2
kind_value host_finished = 3
kind_value display_finished = 4

pub record PairingRecord : Type 0 where
  pub kind : ℕ
  pub nonce : List ℕ
  pub tag : List ℕ

unfoldable pub encode_record : PairingRecord → List ℕ
encode_record r = pairing_magic ++ (be16 pairing_version ++ (r.kind ∷ 0 ∷ (r.nonce ++ r.tag)))

-- The callers pass an array of 56 bytes.
unfoldable pub decode_record : List ℕ → Result TetherPairingError PairingRecord
unfolding same_bytes
decode_record bytes = do
  guard (same_bytes (take 4 bytes) pairing_magic) bad_magic
  let version = read_u16 bytes 4
  guard (version == pairing_version) (unsupported_version version)
  guard (read_u8 bytes 7 == 0) non_canonical_record
  ok (record { kind = read_u8 bytes 6; nonce = take nonce_len (drop 8 bytes); tag = drop 24 bytes })
