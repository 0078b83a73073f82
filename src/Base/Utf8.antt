-- ===== src/Base/Utf8.antt =====
-- Rust's `String` as its bytes: the check of `String::from_utf8`, by the table of well-formed byte
-- sequences of the Unicode standard (table 3-7).
use lado_flow.Base.Tests.{ltb, leb, if◌then◌else◌, ◌==◌}
use Prim.Native.Nat.{ℕ}
use mathlib.Core.Path.{◌≡◌, refl}
use mathlib.Core.Bool.{Bool, true, false, ◌&&◌}
use mathlib.Core.Option.{Option, none, some}
use mathlib.Core.List.{List, [], ◌∷◌}

-- The bounds of one continuation byte.
abbrev Range : Type 0
Range = ℕ × ℕ

abbrev tail_byte : Range
tail_byte = (0x80, 0xbf)

-- What may follow a first byte.
lead : ℕ → Option (List Range)
lead b =
    if ltb b 0x80
    then some []
    else if ltb b 0xc2
    then none
    else if ltb b 0xe0
    then some (tail_byte ∷ [])
    else if b == 0xe0
    then some ((0xa0, 0xbf) ∷ tail_byte ∷ [])
    else if b == 0xed
    then some ((0x80, 0x9f) ∷ tail_byte ∷ [])
    else if ltb b 0xf0
    then some (tail_byte ∷ tail_byte ∷ [])
    else if b == 0xf0
    then some ((0x90, 0xbf) ∷ tail_byte ∷ tail_byte ∷ [])
    else if ltb b 0xf4
    then some (tail_byte ∷ tail_byte ∷ tail_byte ∷ [])
    else if b == 0xf4
    then some ((0x80, 0x8f) ∷ tail_byte ∷ tail_byte ∷ [])
    else none

next_expected : List Range → ℕ → Option (List Range)
unfolding lead
next_expected [] b = lead b
next_expected ((lo, hi) ∷ rest) b = if leb lo b && leb b hi then some rest else none

-- The bytes that are still expected, and the bytes to come.
utf8_from : List Range → List ℕ → Bool
unfolding next_expected
utf8_from [] [] = true
utf8_from (r ∷ rs) [] = false
utf8_from expected (b ∷ bs) = elim (next_expected expected b) [
  | none ↦ false
  | some rest ↦ utf8_from rest bs
]

unfoldable pub is_utf8 : List ℕ → Bool
unfolding utf8_from
is_utf8 bytes = utf8_from [] bytes

-- "añ€😀" and a surrogate.
four_widths :
    is_utf8 (0x61 ∷ 0xc3 ∷ 0xb1 ∷ 0xe2 ∷ 0x82 ∷ 0xac ∷ 0xf0 ∷ 0x9f ∷ 0x98 ∷ 0x80 ∷ []) ≡ true
unfolding is_utf8
four_widths = refl

surrogate : is_utf8 (0xed ∷ 0xa0 ∷ 0x80 ∷ []) ≡ false
unfolding is_utf8
surrogate = refl
