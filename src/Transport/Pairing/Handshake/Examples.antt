-- ===== src/Transport/Pairing/Handshake/Examples.antt =====
-- The two ends at a concrete token, and the theorems there.
use lado_flow.Base.{
  ℕ, ◌+◌, ◌%◌, ◌≡◌, ◌≢◌, refl, arith, Bool, false, List, [], ◌∷◌, ◌++◌, ok, Result, Option, none,
  some, ap, get_or, All,
}
use lado_flow.Base.Bytes.{IsByte}
use lado_flow.Transport.Pairing.{
  zeros, PairingRecord, encode_record, display_hello, same_bytes, TetherPairingError,
}
use lado_flow.Transport.Pairing.Handshake.{
  Socket, transcript, authenticate_host, authenticate_display, generate_nonce,
}
use lado_flow.Transport.Pairing.Handshake.Host.{
  hello_record, HostAccepts, authenticate_host-HostAccepts,
}
use lado_flow.Transport.Pairing.Handshake.Display.{
  DisplayAccepts, authenticate_display-DisplayAccepts,
}
use lado_flow.Transport.Pairing.Handshake.Agreement.{hears, Paired, IsMac, authenticate-Paired}

-- The sum of a list of bytes.
abbrev byte_sum : List ℕ → ℕ
byte_sum [] = 0
byte_sum (x ∷ xs) = x + byte_sum xs

-- A stand-in for the MAC, which tells apart keys and messages of different sums.
abbrev checksum : List ℕ → List ℕ → List ℕ
checksum key message = zeros 31 ++ ((byte_sum key + byte_sum message) % 256 ∷ [])

abbrev mac : List ℕ → List ℕ → Option (List ℕ)
mac key message = some (checksum key message)

mac-IsMac : IsMac mac
mac-IsMac = record { tag = checksum; answers = λ key message. refl; sized = λ key message. refl }

abbrev never : ℕ → Bool
never n = false

abbrev token : List ℕ
token = 1 ∷ 2 ∷ 3 ∷ 4 ∷ 5 ∷ 6 ∷ 7 ∷ 8 ∷ 9 ∷ 10 ∷ []

abbrev other_token : List ℕ
other_token = 2 ∷ 2 ∷ 3 ∷ 4 ∷ 5 ∷ 6 ∷ 7 ∷ 8 ∷ 9 ∷ 10 ∷ []

abbrev host_nonce : List ℕ
host_nonce = 17 ∷ zeros 15

abbrev display_nonce : List ℕ
display_nonce = 18 ∷ zeros 15

host_nonce_nonzero : host_nonce ≢ zeros 16
host_nonce_nonzero e = cc

display_nonce_nonzero : display_nonce ≢ zeros 16
display_nonce_nonzero e = cc

draws_again_at_zeros :
    generate_nonce (some (zeros 16) ∷ some host_nonce ∷ []) ≡ some (ok host_nonce)
unfolding generate_nonce same_bytes
draws_again_at_zeros = refl

abbrev host : Socket → Result TetherPairingError (Unit {0}) × Socket
host = authenticate_host never mac token 5 host_nonce

abbrev display : Socket → Result TetherPairingError (Unit {0}) × Socket
display = authenticate_display never mac token 5 display_nonce

paired : Paired host display
paired =
    authenticate-Paired never mac 5 token host_nonce display_nonce (λ n. refl) mac-IsMac
      (omega arith) refl refl host_nonce_nonzero display_nonce_nonzero

authenticate-Paired_example : Paired host display
authenticate-Paired_example =
    authenticate-Paired never mac 5 token host_nonce display_nonce (λ n. refl) mac-IsMac
      (omega arith) refl refl host_nonce_nonzero display_nonce_nonzero

authenticate_host-HostAccepts_example :
    HostAccepts mac token host_nonce
      (hears paired.to_host)
      (record { incoming = []; written = paired.to_display; calls = 8 })
authenticate_host-HostAccepts_example =
    authenticate_host-HostAccepts mac token never 5 host_nonce (hears paired.to_host)
      (record { incoming = []; written = paired.to_display; calls = 8 }) paired.host_accepts

authenticate_display-DisplayAccepts_example :
    DisplayAccepts mac token display_nonce
      (hears paired.to_display)
      (record { incoming = []; written = paired.to_host; calls = 8 })
authenticate_display-DisplayAccepts_example =
    authenticate_display-DisplayAccepts mac token never 5 display_nonce (hears paired.to_display)
      (record { incoming = []; written = paired.to_host; calls = 8 }) paired.display_accepts

-- The proof of a display that has another token.
abbrev foreign_tag : List ℕ
foreign_tag = checksum other_token (transcript display_hello host_nonce display_nonce)

abbrev last_byte : Option (List ℕ) → ℕ
last_byte none = 0
last_byte (some bytes) = get_or bytes 31 0

foreign_tag_differs :
    mac token (transcript display_hello host_nonce display_nonce) ≢ some foreign_tag
foreign_tag_differs e = omega (arith, ap last_byte e)

abbrev hello : PairingRecord
hello = hello_record host_nonce

hello_bytes : All IsByte (encode_record hello)
unfolding encode_record
hello_bytes = omega arith
