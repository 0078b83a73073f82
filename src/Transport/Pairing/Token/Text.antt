-- ===== src/Transport/Pairing/Token/Text.antt =====
-- The text of a token reads back to it.
use lado_flow.Base.{
  ℕ, suc, ◌+◌, ◌*◌, ◌/◌, ◌%◌, ◌<◌, ◌≡◌, refl, sym, ap, ◌∙◌, arith, List, [], ◌∷◌, All, length, map,
  listing_lem, ok,
}
use mathlib.Core.Path.{subst}
use lado_flow.Base.Bytes.{IsByte}
use lado_flow.Transport.Pairing.Token.{
  Bits, with_byte, next_index, after_symbol, symbol, expose_from, expose_grouped,
  without_separators, read_symbols, from_str,
}
use lado_flow.Transport.Pairing.Token.Indices.{
  emitted, indices_from, values, expose_from-indices_from, read_symbols-values,
}

-- Five bytes in eight indices, with what is left of the accumulator after each symbol.
record Group (a b c d e : ℕ) (xs : List ℕ) (is : List ℕ) : Type 0 where
  i0 : ℕ
  i1 : ℕ
  i2 : ℕ
  i3 : ℕ
  i4 : ℕ
  i5 : ℕ
  i6 : ℕ
  i7 : ℕ
  r0 : ℕ
  r1 : ℕ
  r2 : ℕ
  r3 : ℕ
  r4 : ℕ
  r5 : ℕ
  e0 : (a ≡ 8 * i0 + r0) × (r0 < 8)
  e1 : (r0 * 256 + b ≡ 64 * i1 + r1) × (r1 < 64)
  e2 : (r1 ≡ 2 * i2 + r2) × (r2 < 2)
  e3 : (r2 * 256 + c ≡ 16 * i3 + r3) × (r3 < 16)
  e4 : (r3 * 256 + d ≡ 128 * i4 + r4) × (r4 < 128)
  e5 : (r4 ≡ 4 * i5 + r5) × (r5 < 4)
  e6 : (r5 * 256 + e ≡ 32 * i6 + i7) × (i7 < 32)
  indices : is ≡ i0 ∷ i1 ∷ i2 ∷ i3 ∷ i4 ∷ i5 ∷ i6 ∷ i7 ∷ xs

split_8 : (x : ℕ) → x < 256 → (x ≡ 8 * (x / 8 % 32) + x % 8) × (x % 8 < 8)
split_8 x h = (omega arith, omega arith)

split_64 : (x : ℕ) → x < 2048 → (x ≡ 64 * (x / 64 % 32) + x % 64) × (x % 64 < 64)
split_64 x h = (omega arith, omega arith)

split_2 : (x : ℕ) → x < 64 → (x ≡ 2 * (x / 2 % 32) + x % 2) × (x % 2 < 2)
split_2 x h = (omega arith, omega arith)

split_16 : (x : ℕ) → x < 512 → (x ≡ 16 * (x / 16 % 32) + x % 16) × (x % 16 < 16)
split_16 x h = (omega arith, omega arith)

split_128 : (x : ℕ) → x < 4096 → (x ≡ 128 * (x / 128 % 32) + x % 128) × (x % 128 < 128)
split_128 x h = (omega arith, omega arith)

split_4 : (x : ℕ) → x < 128 → (x ≡ 4 * (x / 4 % 32) + x % 4) × (x % 4 < 4)
split_4 x h = (omega arith, omega arith)

split_32 : (x : ℕ) → x < 1024 → (x ≡ 32 * (x / 32 % 32) + x % 32 / 1 % 32) × (x % 32 / 1 % 32 < 32)
split_32 x h = (omega arith, omega arith)

written_4 :
    (t x q bits : ℕ) (ys : List ℕ)
    → q < 4
    → x < 256
    → t ≡ 4 * x + q
    → (t / 4 % 256 ∷ values (t % 4) bits ys) ≡ x ∷ values q bits ys
written_4 t x q bits ys h k e =
    let out : t / 4 % 256 ≡ x = omega arith in let left : t % 4 ≡ q = omega arith in cc (out, left)

written_16 :
    (t x q bits : ℕ) (ys : List ℕ)
    → q < 16
    → x < 256
    → t ≡ 16 * x + q
    → (t / 16 % 256 ∷ values (t % 16) bits ys) ≡ x ∷ values q bits ys
written_16 t x q bits ys h k e =
    let out : t / 16 % 256 ≡ x = omega arith in
    let left : t % 16 ≡ q = omega arith in cc (out, left)

written_2 :
    (t x q bits : ℕ) (ys : List ℕ)
    → q < 2
    → x < 256
    → t ≡ 2 * x + q
    → (t / 2 % 256 ∷ values (t % 2) bits ys) ≡ x ∷ values q bits ys
written_2 t x q bits ys h k e =
    let out : t / 2 % 256 ≡ x = omega arith in let left : t % 2 ≡ q = omega arith in cc (out, left)

written_8 :
    (t x q bits : ℕ) (ys : List ℕ)
    → q < 8
    → x < 256
    → t ≡ 8 * x + q
    → (t / 8 % 256 ∷ values (t % 8) bits ys) ≡ x ∷ values q bits ys
written_8 t x q bits ys h k e =
    let out : t / 8 % 256 ≡ x = omega arith in let left : t % 8 ≡ q = omega arith in cc (out, left)

written_1 :
    (t x q bits : ℕ) (ys : List ℕ)
    → q < 1
    → x < 256
    → t ≡ 1 * x + q
    → (t / 1 % 256 ∷ values (t % 1) bits ys) ≡ x ∷ values q bits ys
written_1 t x q bits ys h k e =
    let out : t / 1 % 256 ≡ x = omega arith in let left : t % 1 ≡ q = omega arith in cc (out, left)

abbrev from_zero : ℕ → Bits
from_zero n = record { accumulator = 0; bits = 0; symbols = n }

module _ (a b c d e n : ℕ) (bs : List ℕ) (va : a < 256) (vb : b < 256) (vc : c < 256) (vd : d < 256)
    (ve : e < 256) where
  group :
      (m : ℕ) × Group a b c d e
        (indices_from (from_zero m) bs)
        (indices_from (from_zero n) (a ∷ b ∷ c ∷ d ∷ e ∷ bs))
  unfolding indices_from emitted
  group =
      let s0 = with_byte (from_zero n) a in
      let s1 = with_byte (after_symbol s0) b in
      let s2 = after_symbol s1 in
      let s3 = with_byte (after_symbol s2) c in
      let s4 = with_byte (after_symbol s3) d in
      let s5 = after_symbol s4 in
      let s6 = with_byte (after_symbol s5) e in
      let s7 = after_symbol s6 in
      let w = split_8 s0.accumulator (omega arith) in
      let m = (after_symbol s7).symbols in
      let last : after_symbol s7 ≡ from_zero m =
        ap (λ z. record { accumulator = z; bits = 0; symbols = m }) (omega arith) in
      (
        m,
        record {
          i0 = next_index s0;
          i1 = next_index s1;
          i2 = next_index s2;
          i3 = next_index s3;
          i4 = next_index s4;
          i5 = next_index s5;
          i6 = next_index s6;
          i7 = next_index s7;
          r0 = (after_symbol s0).accumulator;
          r1 = (after_symbol s1).accumulator;
          r2 = (after_symbol s2).accumulator;
          r3 = (after_symbol s3).accumulator;
          r4 = (after_symbol s4).accumulator;
          r5 = (after_symbol s5).accumulator;
          e0 = (omega (arith, w.0), w.1);
          e1 = split_64 s1.accumulator (omega arith);
          e2 = split_2 s2.accumulator (omega arith);
          e3 = split_16 s3.accumulator (omega arith);
          e4 = split_128 s4.accumulator (omega arith);
          e5 = split_4 s5.accumulator (omega arith);
          e6 = split_32 s6.accumulator (omega arith);
          indices =
              ap
                (λ t.
                  next_index s0
                  ∷ next_index s1
                  ∷ next_index s2
                  ∷ next_index s3
                  ∷ next_index s4
                  ∷ next_index s5
                  ∷ next_index s6
                  ∷ next_index s7
                  ∷ indices_from t bs)
                last;
        },
      )

  -- Reading the indices of a group gives its bytes.
  values-Group :
      (xs is : List ℕ) → Group a b c d e xs is → values 0 0 is ≡ a ∷ b ∷ c ∷ d ∷ e ∷ values 0 0 xs
  unfolding values
  values-Group xs is g =
      let q0 = b / 64 in
      let q1 = c / 16 in
      let q2 = d / 128 in
      let q3 = e / 32 in
      let h1 : ((0 * 32 + g.i0) * 32 + g.i1 ≡ 4 * a + q0) = omega (arith, g.e0, g.e1) in
      let h2 : ((q0 * 32 + g.i2) * 32 + g.i3 ≡ 16 * b + q1) = omega (arith, g.e1, g.e2, g.e3) in
      let h3 : (q1 * 32 + g.i4 ≡ 2 * c + q2) = omega (arith, g.e3, g.e4) in
      let h4 : ((q2 * 32 + g.i5) * 32 + g.i6 ≡ 8 * d + q3) = omega (arith, g.e4, g.e5, g.e6) in
      let h5 : (q3 * 32 + g.i7 ≡ 1 * e + 0) = omega (arith, g.e5, g.e6) in
      ap (values 0 0) g.indices
      ∙ written_4 _ a q0 2 (g.i2 ∷ g.i3 ∷ g.i4 ∷ g.i5 ∷ g.i6 ∷ g.i7 ∷ xs) (omega arith) va h1
      ∙ ap (λ zs. a ∷ zs)
          (written_16 _ b q1 4 (g.i4 ∷ g.i5 ∷ g.i6 ∷ g.i7 ∷ xs) (omega arith) vb h2
            ∙ ap (λ zs. b ∷ zs)
                (written_2 _ c q2 1 (g.i5 ∷ g.i6 ∷ g.i7 ∷ xs) (omega arith) vc h3
                  ∙ ap (λ zs. c ∷ zs)
                      (written_8 _ d q3 3 (g.i7 ∷ xs) (omega arith) vd h4
                        ∙ ap (λ zs. d ∷ zs) (written_1 _ e 0 0 (xs) (omega arith) ve h5))))

abbrev ten_bytes : ℕ → ℕ → ℕ → ℕ → ℕ → ℕ → ℕ → ℕ → ℕ → ℕ → List ℕ
ten_bytes a b c d e f g h i j = a ∷ b ∷ c ∷ d ∷ e ∷ f ∷ g ∷ h ∷ i ∷ j ∷ []

module _ (a b c d e f g h i j : ℕ) where
  values_ten :
      All IsByte (ten_bytes a b c d e f g h i j)
      → values 0 0 (indices_from (from_zero 0) (ten_bytes a b c d e f g h i j))
        ≡ ten_bytes a b c d e f g h i j
  unfolding values indices_from
  values_ten (va, (vb, (vc, (vd, (ve, (vf, (vg, (vh, (vi, (vj, _)))))))))) =
      let (m, g1) = group a b c d e 0 (f ∷ g ∷ h ∷ i ∷ j ∷ []) va vb vc vd ve in
      let (m', g2) = group f g h i j m [] vf vg vh vi vj in
      values-Group a b c d e 0 (f ∷ g ∷ h ∷ i ∷ j ∷ []) va vb vc vd ve _ _ g1
      ∙ ap (λ zs. a ∷ b ∷ c ∷ d ∷ e ∷ zs) (values-Group f g h i j m [] vf vg vh vi vj _ _ g2)

  length_ten : length (indices_from (from_zero 0) (ten_bytes a b c d e f g h i j)) ≡ 16
  unfolding indices_from emitted
  length_ten = refl

length_symbols : (xs : List ℕ) → length (map symbol xs) ≡ length xs
length_symbols [] = refl
length_symbols (x ∷ xs) = ap suc (length_symbols xs)

from_str_lem :
    (text symbols : List ℕ)
    → without_separators text ≡ symbols
    → length symbols ≡ 16
    → from_str text ≡ read_symbols 0 0 symbols
unfolding from_str
from_str_lem text symbols kept size = rw kept (rw size refl)

from_str_ten :
    (a b c d e f g h i j : ℕ)
    → All IsByte (ten_bytes a b c d e f g h i j)
    → from_str (expose_grouped (ten_bytes a b c d e f g h i j)) ≡ ok (ten_bytes a b c d e f g h i j)
unfolding expose_grouped
from_str_ten a b c d e f g h i j w =
    let bytes = ten_bytes a b c d e f g h i j in
    let xs = indices_from (from_zero 0) bytes in
    let (text, small) = expose_from-indices_from (from_zero 0) bytes in
    from_str_lem (expose_from (from_zero 0) bytes) (map symbol xs) text
      (length_symbols xs ∙ length_ten a b c d e f g h i j)
    ∙ read_symbols-values 0 0 xs small
    ∙ ap ok (values_ten a b c d e f g h i j w)

-- The grouped text of a pairing token of ten bytes reads back to that token.
pub from_str-expose_grouped :
    (token : List ℕ)
    → length token ≡ 10
    → All IsByte token
    → from_str (expose_grouped token) ≡ ok token
from_str-expose_grouped token size w =
    let listed = listing_lem 10 token 0 size in
    subst (λ t. from_str (expose_grouped t) ≡ ok t) (sym listed)
      (from_str_ten _ _ _ _ _ _ _ _ _ _ (subst (All IsByte) listed w))
