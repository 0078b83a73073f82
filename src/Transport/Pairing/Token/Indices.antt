-- ===== src/Transport/Pairing/Token/Indices.antt =====
-- The indices of the symbols in the text of a token, and the reading of such symbols.
use lado_flow.Base.{
  ℕ, zero, suc, ◌+◌, ◌-◌, ◌*◌, ◌/◌, ◌%◌, ◌^◌, ◌<◌, ◌≡◌, refl, sym, ap, ◌∙◌, arith, inl, inr, Bool,
  true, false, ◌&&◌, ◌==◌, not, ltb, Bool-cases, Option, none, some, List, [], ◌∷◌, ◌++◌, All, map,
  ok,
}
use mathlib.Core.Path.{subst}
use mathlib.Core.List.{map-append}
use lado_flow.Transport.Pairing.Token.{
  Bits, with_byte, next_index, after_symbol, separator, emit, symbol, expose_from, decode_crockford,
  is_separator, without_separators, read_symbols,
}

-- A Boolean test of each number below a bound.
every : ℕ → (ℕ → Bool) → Bool
every zero test = true
every (suc n) test = test n && every n test

every-lt : (n : ℕ) (test : ℕ → Bool) → every n test ≡ true → (i : ℕ) → i < n → test i ≡ true
unfolding every
every-lt zero test e i less = absurd (omega arith)
every-lt (suc n) test e i less = elim (Bool-cases (i == n)) [
  | inl same ↦ let eq : i ≡ n = ground arith in ap test eq ∙ ground arith
  | inr other ↦ every-lt n test (ground arith) i (ground arith)
]

-- A symbol is no separator and has its index as its value.
abbrev is_value : Option ℕ → ℕ → Bool
is_value none i = false
is_value (some v) i = v == i

abbrev reads_back : ℕ → Bool
reads_back i = not (is_separator (symbol i)) && is_value (decode_crockford (symbol i)) i

reads_back_all : every 32 reads_back ≡ true
unfolding every symbol decode_crockford
reads_back_all = refl

is_value-eq : (o : Option ℕ) (i : ℕ) → is_value o i ≡ true → o ≡ some i
is_value-eq none i e = absurd (ground arith)
is_value-eq (some v) i e = ap some (ground arith)

both_true : (a b : Bool) → not a && b ≡ true → (a ≡ false) × (b ≡ true)
both_true a b e = ground arith

symbol_lem :
    (i : ℕ) → i < 32 → (is_separator (symbol i) ≡ false) × (decode_crockford (symbol i) ≡ some i)
symbol_lem i less =
    let e =
      both_true (is_separator (symbol i)) (is_value (decode_crockford (symbol i)) i)
        (every-lt 32 reads_back reads_back_all i less) in
    (e.0, is_value-eq (decode_crockford (symbol i)) i e.1)

-- The indices of the symbols, without text.
unfoldable pub emitted : ℕ → Bits → List ℕ × Bits
emitted zero s = ([], s)
emitted (suc fuel) s = elim (ltb s.bits 5) [
  | true ↦ ([], s)
  | false ↦ let (xs, s') = emitted fuel (after_symbol s) in (next_index s ∷ xs, s')
]

unfoldable pub indices_from : Bits → List ℕ → List ℕ
unfolding emitted
indices_from s [] = []
indices_from s (byte ∷ bytes) =
    let t = with_byte s byte in let (xs, s') = emitted t.bits t in xs ++ indices_from s' bytes

without_separators-append :
    (xs ys : List ℕ)
    → without_separators (xs ++ ys) ≡ without_separators xs ++ without_separators ys
unfolding without_separators
without_separators-append [] ys = refl
without_separators-append (x ∷ xs) ys = elim (Bool-cases (is_separator x)) [
  | inl e ↦ rw e (without_separators-append xs ys)
  | inr e ↦ rw e (ap (λ zs. x ∷ zs) (without_separators-append xs ys))
]

without_separators-separator :
    (n : ℕ) (ys : List ℕ) → without_separators (separator n ++ ys) ≡ without_separators ys
unfolding without_separators
without_separators-separator n ys = elim (Bool-cases (ltb 0 n && (n % 4 == 0))) [
  | inl e ↦ rw e refl
  | inr e ↦ rw e refl
]

without_separators-symbol :
    (i : ℕ) (ys : List ℕ)
    → i < 32
    → without_separators (symbol i ∷ ys) ≡ symbol i ∷ without_separators ys
unfolding without_separators
without_separators-symbol i ys less = rw (symbol_lem i less).0 refl

next_index-lt : (s : Bits) → next_index s < 32
next_index-lt s = omega arith

emit_done : (fuel : ℕ) (s : Bits) → ltb s.bits 5 ≡ true → emit (suc fuel) s ≡ ([], s)
unfolding emit
emit_done fuel s e = rw (e, emit) refl

emit_more :
    (fuel : ℕ) (s : Bits)
    → ltb s.bits 5 ≡ false
    → let (output, s') = emit fuel (after_symbol s) in
      emit (suc fuel) s ≡ (separator s.symbols ++ (symbol (next_index s) ∷ output), s')
unfolding emit
emit_more fuel s e = rw (e, emit) refl

emitted_done : (fuel : ℕ) (s : Bits) → ltb s.bits 5 ≡ true → emitted (suc fuel) s ≡ ([], s)
unfolding emitted
emitted_done fuel s e = rw (e, emitted) refl

emitted_more :
    (fuel : ℕ) (s : Bits)
    → ltb s.bits 5 ≡ false
    → let (xs, s') = emitted fuel (after_symbol s) in emitted (suc fuel) s ≡ (next_index s ∷ xs, s')
unfolding emitted
emitted_more fuel s e = rw (e, emitted) refl

record SameSymbols (out : List ℕ × Bits) (xs : List ℕ × Bits) : Type 0 where
  text : without_separators out.0 ≡ map symbol xs.0
  state : out.1 ≡ xs.1
  small : All (λ i. i < 32) xs.0

emit-SameSymbols : (fuel : ℕ) (s : Bits) → SameSymbols (emit fuel s) (emitted fuel s)
unfolding emit emitted without_separators
emit-SameSymbols zero s = record { text = refl; state = refl; small = tt }
emit-SameSymbols (suc fuel) s = elim (Bool-cases (ltb s.bits 5)) [
  | inl e ↦
      subst (λ o. SameSymbols o (emitted (suc fuel) s)) (sym (emit_done fuel s e))
        (subst (SameSymbols ([], s)) (sym (emitted_done fuel s e))
          (record { text = refl; state = refl; small = tt }))
  | inr e ↦
      let rest = emit-SameSymbols fuel (after_symbol s) in
      subst (λ o. SameSymbols o (emitted (suc fuel) s)) (sym (emit_more fuel s e))
        (subst (SameSymbols _) (sym (emitted_more fuel s e)) (record {
          text =
              without_separators-separator s.symbols
                (symbol (next_index s) ∷ (emit fuel (after_symbol s)).0)
              ∙ without_separators-symbol (next_index s) (emit fuel (after_symbol s)).0
                  (next_index-lt s)
              ∙ ap (λ ys. symbol (next_index s) ∷ ys) rest.text;
          state = rest.state;
          small = (next_index-lt s, rest.small);
        }))
]

All_append :
    (xs ys : List ℕ) → All (λ i. i < 32) xs → All (λ i. i < 32) ys → All (λ i. i < 32) (xs ++ ys)
All_append [] ys a b = b
All_append (x ∷ xs) ys a b = (a.0, All_append xs ys a.1 b)

pub expose_from-indices_from :
    (s : Bits) (bytes : List ℕ)
    → (without_separators (expose_from s bytes) ≡ map symbol (indices_from s bytes))
      × All (λ i. i < 32) (indices_from s bytes)
unfolding expose_from indices_from without_separators
expose_from-indices_from s [] = (refl, tt)
expose_from-indices_from s (byte ∷ bytes) =
    let t = with_byte s byte in
    let one = emit-SameSymbols t.bits t in
    let more = expose_from-indices_from (emitted t.bits t).1 bytes in
    (
      without_separators-append (emit t.bits t).0 (expose_from (emit t.bits t).1 bytes)
          ∙ ap (λ xs. xs ++ without_separators (expose_from (emit t.bits t).1 bytes)) one.text
          ∙ ap (λ u. map symbol (emitted t.bits t).0 ++ without_separators (expose_from u bytes))
              one.state
          ∙ ap (λ ys. map symbol (emitted t.bits t).0 ++ ys) more.0
          ∙ sym (map-append symbol (emitted t.bits t).0 (indices_from (emitted t.bits t).1 bytes)),
      All_append (emitted t.bits t).0 (indices_from (emitted t.bits t).1 bytes) one.small more.1,
    )

-- The reading of indices.
unfoldable pub values : ℕ → ℕ → List ℕ → List ℕ
values accumulator bits [] = []
values accumulator bits (i ∷ is) = elim (ltb (bits + 5) 8) [
  | true ↦ values (accumulator * 32 + i) (bits + 5) is
  | false ↦
      (accumulator * 32 + i) / 2 ^ (bits + 5 - 8) % 256
      ∷ values ((accumulator * 32 + i) % 2 ^ (bits + 5 - 8)) (bits + 5 - 8) is
]

read_symbols-kept :
    (acc bits c v : ℕ) (cs : List ℕ)
    → decode_crockford c ≡ some v
    → ltb (bits + 5) 8 ≡ true
    → read_symbols acc bits (c ∷ cs) ≡ read_symbols (acc * 32 + v) (bits + 5) cs
unfolding read_symbols
read_symbols-kept acc bits c v cs d e = rw d (rw e refl)

read_symbols-written :
    (acc bits c v : ℕ) (cs out : List ℕ)
    → decode_crockford c ≡ some v
    → ltb (bits + 5) 8 ≡ false
    → read_symbols ((acc * 32 + v) % 2 ^ (bits + 5 - 8)) (bits + 5 - 8) cs ≡ ok out
    → read_symbols acc bits (c ∷ cs) ≡ ok ((acc * 32 + v) / 2 ^ (bits + 5 - 8) % 256 ∷ out)
unfolding read_symbols
read_symbols-written acc bits c v cs out d e r = rw d (rw e (rw r refl))

values-kept :
    (acc bits x : ℕ) (xs : List ℕ)
    → ltb (bits + 5) 8 ≡ true
    → values acc bits (x ∷ xs) ≡ values (acc * 32 + x) (bits + 5) xs
unfolding values
values-kept acc bits x xs e = rw (e, values) refl

values-written :
    (acc bits x : ℕ) (xs : List ℕ)
    → ltb (bits + 5) 8 ≡ false
    → values acc bits (x ∷ xs)
      ≡ (acc * 32 + x) / 2 ^ (bits + 5 - 8) % 256
        ∷ values ((acc * 32 + x) % 2 ^ (bits + 5 - 8)) (bits + 5 - 8) xs
unfolding values
values-written acc bits x xs e = rw (e, values) refl

pub read_symbols-values :
    (acc bits : ℕ) (xs : List ℕ)
    → All (λ i. i < 32) xs
    → read_symbols acc bits (map symbol xs) ≡ ok (values acc bits xs)
unfolding read_symbols values
read_symbols-values acc bits [] v = refl
read_symbols-values acc bits (x ∷ xs) v = elim (Bool-cases (ltb (bits + 5) 8)) [
  | inl e ↦
      read_symbols-kept acc bits (symbol x) x (map symbol xs) (symbol_lem x v.0).1 e
      ∙ read_symbols-values (acc * 32 + x) (bits + 5) xs v.1
      ∙ ap ok (sym (values-kept acc bits x xs e))
  | inr e ↦
      read_symbols-written acc bits (symbol x) x (map symbol xs) _ (symbol_lem x v.0).1 e
        (read_symbols-values ((acc * 32 + x) % 2 ^ (bits + 5 - 8)) (bits + 5 - 8) xs v.1)
      ∙ ap ok (sym (values-written acc bits x xs e))
]
