-- ===== src/Protocol/Decoder/Parses.antt =====
-- What a byte stream says: its frames in order, and the bytes behind the last complete one. This is
-- the specification of the decoder, and does not speak of buffers.
use lado_flow.Base.{
  ℕ, ◌≤◌, ◌≡◌, refl, sym, ap, ◌∙◌, arith, List, [], ◌∷◌, ◌++◌, All, length, drop, length-drop,
  drop-append, drop-append_le, Result, ok, err,
}
use mathlib.Core.Path.{subst}
use lado_flow.Protocol.Error.{ProtocolError}
use lado_flow.Protocol.Frame.{
  Frame, DecodeOutcome, complete, need_more_data, encode_frame, encoded_len, decode_prefix,
}
use lado_flow.Protocol.Frame.Prefix.{IsFrame, decode_prefix-encode_frame, length-encode_frame}
use lado_flow.Protocol.Frame.Stream.{
  consumed_bounds, decode_prefix-append_complete, decode_prefix-append_err,
}

abbrev pub Parses : List ℕ → List Frame → List ℕ → Type 0
Parses b [] r = (r ≡ b) × ((m : ℕ) × (decode_prefix b ≡ ok (need_more_data m)))
Parses b (f ∷ fs) r = (k : ℕ) × (decode_prefix b ≡ ok (complete f k)) × Parses (drop k b) fs r

-- Behind the given frames the stream has a header that is refused.
abbrev pub FailsAfter : List ℕ → List Frame → ProtocolError → Type 0
FailsAfter b [] x = (decode_prefix b ≡ err x)
FailsAfter b (f ∷ fs) x =
    (k : ℕ) × (decode_prefix b ≡ ok (complete f k)) × FailsAfter (drop k b) fs x

-- A stream has one reading.
pub Parses-unique :
    (b : List ℕ) (fs gs : List Frame) (r s : List ℕ)
    → Parses b fs r
    → Parses b gs s
    → (fs ≡ gs) × (r ≡ s)
Parses-unique b [] [] r s p q = (refl, p.0 ∙ sym q.0)
Parses-unique b [] (g ∷ gs) r s p q = absurd (ground (arith, p.1.1, q.1))
Parses-unique b (f ∷ fs) [] r s p q = absurd (ground (arith, p.1, q.1.1))
Parses-unique b (f ∷ fs) (g ∷ gs) r s p q =
    let cut : q.0 ≡ p.0 = ground (arith, p.1, q.1) in
    let head : f ≡ g = ground (arith, p.1, q.1) in
    let tail =
      Parses-unique (drop p.0 b) fs gs r s p.2 (subst (λ k. Parses (drop k b) gs s) cut q.2) in
    (cc (head, tail.0), tail.1)

-- Reading goes on where it stopped when more bytes arrive.
pub Parses-append :
    (b c : List ℕ) (fs gs : List Frame) (r t : List ℕ)
    → Parses b fs r
    → Parses (r ++ c) gs t
    → Parses (b ++ c) (fs ++ gs) t
Parses-append b c [] gs r t p q = subst (λ x. Parses (x ++ c) gs t) p.0 q
Parses-append b c (f ∷ fs) gs r t p q =
    let bound = consumed_bounds b f p.0 p.1 in
    (
      p.0,
      decode_prefix-append_complete b c f p.0 p.1,
      subst (λ x. Parses x (fs ++ gs) t) (sym (drop-append_le p.0 b c bound.1))
          (Parses-append (drop p.0 b) c fs gs r t p.2 q),
    )

-- The part of a stream that has arrived can be read, if the whole can.
pub record Split (b c : List ℕ) (hs : List Frame) (t : List ℕ) : Type 0 where
  pub early : List Frame
  pub late : List Frame
  pub rest : List ℕ
  pub read : Parses b early rest
  pub more : Parses (rest ++ c) late t
  pub all : hs ≡ early ++ late

Split-now :
    (b c : List ℕ) (hs : List Frame) (t : List ℕ) (m : ℕ)
    → decode_prefix b ≡ ok (need_more_data m)
    → Parses (b ++ c) hs t
    → Split b c hs t
Split-now b c hs t m e p = record {
  early = [];
  late = hs;
  rest = b;
  read = (refl, (m, e));
  more = p;
  all = refl;
}

Split-first :
    (b c : List ℕ) (f : Frame) (k : ℕ) (hs : List Frame) (t : List ℕ)
    → decode_prefix b ≡ ok (complete f k)
    → Split (drop k b) c hs t
    → Split b c (f ∷ hs) t
Split-first b c f k hs t e s = record {
  early = f ∷ s.early;
  late = s.late;
  rest = s.rest;
  read = (k, e, s.read);
  more = s.more;
  all = ap (◌∷◌ f) s.all;
}

Split-stream :
    (b c : List ℕ) (hs : List Frame) (t : List ℕ) (r : Result ProtocolError DecodeOutcome)
    → decode_prefix b ≡ r
    → Parses (b ++ c) hs t
    → Split b c hs t
Split-stream b c hs t (ok (need_more_data m)) e p = Split-now b c hs t m e p
Split-stream b c [] t (ok (complete f k)) e p =
    absurd (ground (arith, decode_prefix-append_complete b c f k e, p.1.1))
Split-stream b c (h ∷ hs) t (ok (complete f k)) e p =
    let again = decode_prefix-append_complete b c f k e in
    let cut : p.0 ≡ k = ground (arith, again, p.1) in
    let same : f ≡ h = ground (arith, again, p.1) in
    let tail : Parses (drop k b ++ c) hs t =
      subst (λ x. Parses x hs t) (drop-append_le k b c (consumed_bounds b f k e).1)
        (subst (λ j. Parses (drop j (b ++ c)) hs t) cut p.2) in
    subst (λ g. Split b c (g ∷ hs) t) same
      (Split-first b c f k hs t e
        (Split-stream (drop k b) c hs t (decode_prefix (drop k b)) refl tail))
Split-stream b c [] t (err x) e p = absurd (ground (arith, decode_prefix-append_err b c x e, p.1.1))
Split-stream b c (h ∷ hs) t (err x) e p =
    absurd (ground (arith, decode_prefix-append_err b c x e, p.1))

pub Parses-Split :
    (b c : List ℕ) (hs : List Frame) (t : List ℕ) → Parses (b ++ c) hs t → Split b c hs t
Parses-Split b c hs t p = Split-stream b c hs t (decode_prefix b) refl p

-- The frames that were encoded one behind the other.
abbrev pub encode_all : List Frame → List ℕ
encode_all [] = []
encode_all (f ∷ fs) = encode_frame f ++ encode_all fs

pub decode_prefix-nil : decode_prefix [] ≡ ok (need_more_data 24)
unfolding decode_prefix
decode_prefix-nil = refl

pub encode_all-Parses : (fs : List Frame) → All IsFrame fs → Parses (encode_all fs) fs []
encode_all-Parses [] v = (refl, (24, decode_prefix-nil))
encode_all-Parses (f ∷ fs) v = (
  encoded_len f,
  decode_prefix-encode_frame f (encode_all fs) v.0,
  subst (λ b. Parses b fs [])
      (sym (drop-append (encoded_len f) (encode_frame f) (encode_all fs) (length-encode_frame f)))
      (encode_all-Parses fs v.1),
)

-- Behind the last complete frame a reading has no further one.
pub Parses-rest :
    (b : List ℕ) (fs : List Frame) (r : List ℕ)
    → Parses b fs r
    → (m : ℕ) × (decode_prefix r ≡ ok (need_more_data m))
Parses-rest b [] r p = (p.1.0, ap decode_prefix p.0 ∙ p.1.1)
Parses-rest b (f ∷ fs) r p = Parses-rest (drop p.0 b) fs r p.2

pub Parses-length :
    (b : List ℕ) (fs : List Frame) (r : List ℕ) → Parses b fs r → length r ≤ length b
Parses-length b [] r p = omega (arith, ap length p.0)
Parses-length b (f ∷ fs) r p = omega (arith, Parses-length (drop p.0 b) fs r p.2, length-drop p.0 b)
