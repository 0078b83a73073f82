-- ===== src/Transport/Pairing/Token/Examples.antt =====
-- Tokens at concrete bytes.
use lado_flow.Base.{ℕ, ◌≡◌, refl, arith, List, [], ◌∷◌, ok, err}
use lado_flow.Transport.Pairing.Token.{
  expose_grouped, symbol, from_str, decode_crockford, wrong_symbol_count,
}
use lado_flow.Transport.Pairing.Token.Text.{from_str-expose_grouped}

abbrev token : List ℕ
token = 0 ∷ 1 ∷ 2 ∷ 3 ∷ 4 ∷ 5 ∷ 6 ∷ 7 ∷ 8 ∷ 9 ∷ []

-- "000G-40R4-0M30-E209".
abbrev token_text : List ℕ
token_text =
    b'0' ∷ b'0' ∷ b'0' ∷ b'G' ∷ b'-' ∷ b'4' ∷ b'0' ∷ b'R' ∷ b'4' ∷ b'-' ∷ b'0' ∷ b'M' ∷ b'3' ∷ b'0'
    ∷ b'-' ∷ b'E' ∷ b'2' ∷ b'0' ∷ b'9' ∷ []

exposed : expose_grouped token ≡ token_text
unfolding expose_grouped symbol
exposed = refl

read_back : from_str token_text ≡ ok token
unfolding from_str decode_crockford
read_back = refl

-- Lower case, and the aliases of zero and one.
aliased :
    from_str (
      b'o' ∷ b'O' ∷ b'0' ∷ b'g' ∷ b'4' ∷ b'0' ∷ b'r' ∷ b'4' ∷ b' ' ∷ b'0' ∷ b'm' ∷ b'3' ∷ b'0'
      ∷ b'e' ∷ b'2' ∷ b'0' ∷ b'9' ∷ [])
    ≡ ok token
unfolding from_str decode_crockford
aliased = refl

short : from_str (b'0' ∷ []) ≡ err (wrong_symbol_count 1)
unfolding from_str
short = refl

from_str-expose_grouped_example : from_str (expose_grouped token) ≡ ok token
from_str-expose_grouped_example = from_str-expose_grouped token refl (omega arith)
