-- ===== src/Transport/Pairing/Token.antt =====
-- crates/ladoflow-transport/src/pairing.rs: the text of a pairing token. A `char` is its code point,
-- a shift is a product or a quotient by a power of two, and a mask of low bits is a remainder.
pub mod Indices
pub mod Text
mod Examples
use lado_flow.Base.{
  ℕ, zero, suc, ◌+◌, ◌-◌, ◌*◌, ◌/◌, ◌%◌, ◌^◌, ◌==◌, ◌&&◌, ◌||◌, not, Bool, true, false, Option,
  none, some, List, [], ◌∷◌, ◌++◌, if◌then◌else◌, length, leb, ltb, Result, ok, err, ◌>>=◌, ◌>>◌,
  guard,
}

abbrev pub token_symbols : ℕ
token_symbols = 16

-- `CROCKFORD_ALPHABET`.
abbrev pub alphabet : List ℕ
alphabet =
    b'0' ∷ b'1' ∷ b'2' ∷ b'3' ∷ b'4' ∷ b'5' ∷ b'6' ∷ b'7' ∷ b'8' ∷ b'9' ∷ b'A' ∷ b'B' ∷ b'C' ∷ b'D'
    ∷ b'E' ∷ b'F' ∷ b'G' ∷ b'H' ∷ b'J' ∷ b'K' ∷ b'M' ∷ b'N' ∷ b'P' ∷ b'Q' ∷ b'R' ∷ b'S' ∷ b'T'
    ∷ b'V' ∷ b'W' ∷ b'X' ∷ b'Y' ∷ b'Z' ∷ []

pub data TokenError : Type 0 where
  wrong_symbol_count : (actual : ℕ) → TokenError
  invalid_symbol : (symbol : ℕ) → TokenError

-- An element of the alphabet by its index, which is below 32.
abbrev element : List ℕ → ℕ → ℕ
element [] i = 0
element (c ∷ cs) zero = c
element (c ∷ cs) (suc i) = element cs i

unfoldable pub symbol : ℕ → ℕ
symbol i = element alphabet i

-- The state of the loop of `expose_grouped`.
pub record Bits : Type 0 where
  pub accumulator : ℕ
  pub bits : ℕ
  pub symbols : ℕ

abbrev pub with_byte : Bits → ℕ → Bits
with_byte s byte = record s { accumulator = s.accumulator * 256 + byte; bits = s.bits + 8 }

-- The index of the next symbol, and the state behind it.
abbrev pub next_index : Bits → ℕ
next_index s = s.accumulator / 2 ^ (s.bits - 5) % 32

abbrev pub after_symbol : Bits → Bits
after_symbol s = record {
  accumulator = s.accumulator % 2 ^ (s.bits - 5);
  bits = s.bits - 5;
  symbols = s.symbols + 1;
}

-- The separator in front of each group but the first.
abbrev pub separator : ℕ → List ℕ
separator symbols = if ltb 0 symbols && (symbols % 4 == 0) then b'-' ∷ [] else []

-- The inner loop, on as much fuel as there are bits.
unfoldable pub emit : ℕ → Bits → List ℕ × Bits
emit zero s = ([], s)
emit (suc fuel) s = elim (ltb s.bits 5) [
  | true ↦ ([], s)
  | false ↦
      let (output, s') = emit fuel (after_symbol s) in
      (separator s.symbols ++ (symbol (next_index s) ∷ output), s')
]

unfoldable pub expose_from : Bits → List ℕ → List ℕ
unfolding emit
expose_from s [] = []
expose_from s (byte ∷ bytes) =
    let t = with_byte s byte in let (output, s') = emit t.bits t in output ++ expose_from s' bytes

unfoldable pub expose_grouped : List ℕ → List ℕ
unfolding expose_from
expose_grouped token = expose_from (record { accumulator = 0; bits = 0; symbols = 0 }) token

-- `to_ascii_uppercase`.
abbrev pub to_ascii_uppercase : ℕ → ℕ
to_ascii_uppercase c = if leb b'a' c && leb c b'z' then c - 32 else c

-- `Iterator::position` from an index on.
abbrev position : List ℕ → ℕ → ℕ → Option ℕ
position [] i c = none
position (a ∷ more) i c = if a == c then some i else position more (i + 1) c

unfoldable pub decode_crockford : ℕ → Option ℕ
decode_crockford character =
    let normalized = to_ascii_uppercase character in
    if normalized == b'O'
    then some 0
    else if normalized == b'I' || normalized == b'L'
    then some 1
    else position alphabet 0 normalized

abbrev pub is_separator : ℕ → Bool
is_separator c = c == b'-' || c == b' '

-- The filter of `from_str`.
unfoldable pub without_separators : List ℕ → List ℕ
without_separators [] = []
without_separators (c ∷ cs) =
    if is_separator c then without_separators cs else c ∷ without_separators cs

-- `ok_or`.
abbrev pub valid_symbol : ℕ → Option ℕ → Result TokenError ℕ
valid_symbol character none = err (invalid_symbol character)
valid_symbol character (some value) = ok value

-- The loop of `from_str`: the bytes that it writes, in their order.
unfoldable pub read_symbols : ℕ → ℕ → List ℕ → Result TokenError (List ℕ)
read_symbols accumulator bits [] = ok []
read_symbols accumulator bits (character ∷ characters) = do
  value ← valid_symbol character (decode_crockford character)
  elim (ltb (bits + 5) 8) [
    | true ↦ read_symbols (accumulator * 32 + value) (bits + 5) characters
    | false ↦ do
      output ←
          read_symbols ((accumulator * 32 + value) % 2 ^ (bits + 5 - 8)) (bits + 5 - 8) characters
      ok ((accumulator * 32 + value) / 2 ^ (bits + 5 - 8) % 256 ∷ output)
  ]

-- Sixteen symbols hold the eighty bits of ten bytes.
unfoldable pub from_str : List ℕ → Result TokenError (List ℕ)
unfolding without_separators read_symbols
from_str value = do
  let symbols = without_separators value
  guard (length symbols == token_symbols) (wrong_symbol_count (length symbols))
  read_symbols 0 0 symbols
