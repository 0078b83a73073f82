-- ===== src/Base/Bytes.antt =====
-- Big-endian words in a list of bytes: `to_be_bytes`, `from_be_bytes` and indexing. A read past the
-- end panics in Rust; every read here is guarded by a length check, so the default is not reached.
use lado_flow.Base.Lists.{All, All-get_or, get_or}
use Prim.Native.Nat.{ℕ, ◌+◌, ◌*◌, ◌/◌, ◌%◌, ◌^◌, ◌<◌}
use mathlib.Core.Path.{◌≡◌, refl, ap, ◌∙◌}
use mathlib.Core.List.{List, [], ◌∷◌, ◌++◌}
use native.Mathlib.Omega.{arith}

abbrev pub IsByte : ℕ → Type 0
IsByte b = b < 256

abbrev pub be16 : ℕ → List ℕ
be16 x = (x / 256 % 256) ∷ (x % 256) ∷ []

abbrev pub be32 : ℕ → List ℕ
be32 x = (x / 2 ^ 24 % 256) ∷ (x / 2 ^ 16 % 256) ∷ (x / 256 % 256) ∷ (x % 256) ∷ []

abbrev pub be64 : ℕ → List ℕ
be64 x = be32 (x / 2 ^ 32) ++ be32 x

abbrev pub read_u8 : List ℕ → ℕ → ℕ
read_u8 bytes offset = get_or bytes offset 0

abbrev pub word16 : ℕ → ℕ → ℕ
word16 a b = a * 256 + b

abbrev pub word32 : ℕ → ℕ → ℕ → ℕ → ℕ
word32 a b c d = ((a * 256 + b) * 256 + c) * 256 + d

abbrev pub read_u16 : List ℕ → ℕ → ℕ
read_u16 bytes offset = word16 (read_u8 bytes offset) (read_u8 bytes (offset + 1))

abbrev pub read_u32 : List ℕ → ℕ → ℕ
read_u32 bytes offset =
    word32 (read_u8 bytes offset) (read_u8 bytes (offset + 1)) (read_u8 bytes (offset + 2))
      (read_u8 bytes (offset + 3))

abbrev pub read_u64 : List ℕ → ℕ → ℕ
read_u64 bytes offset = read_u32 bytes offset * 2 ^ 32 + read_u32 bytes (offset + 4)

pub word16-be : (x : ℕ) → x < 2 ^ 16 → word16 (x / 256 % 256) (x % 256) ≡ x
word16-be x h = omega arith

pub word32-be :
    (x : ℕ)
    → x < 2 ^ 32
    → word32 (x / 2 ^ 24 % 256) (x / 2 ^ 16 % 256) (x / 256 % 256) (x % 256) ≡ x
word32-be x h = omega arith

pub word64-be : (x : ℕ) → x < 2 ^ 64 → read_u64 (be64 x) 0 ≡ x
word64-be x h = omega arith

-- A word in two bytes is written back as those bytes.
pub be16-word16 : (a b : ℕ) → a < 256 → b < 256 → be16 (word16 a b) ≡ a ∷ b ∷ []
be16-word16 a b h k = ground arith

pub be32-word32 :
    (a b c d : ℕ)
    → a < 256
    → b < 256
    → c < 256
    → d < 256
    → be32 (word32 a b c d) ≡ a ∷ b ∷ c ∷ d ∷ []
be32-word32 a b c d p q r s = ground arith

pub be64-word64 :
    (s x y : ℕ) → x < 2 ^ 32 → y < 2 ^ 32 → s ≡ x * 2 ^ 32 + y → be64 s ≡ be32 x ++ be32 y
be64-word64 s x y h k e = ground arith

-- What is read from bytes fits its word, and is written back as those bytes.
module _ (p : List ℕ) (w : All IsByte p) where
  pub read_u8-lt : (i : ℕ) → read_u8 p i < 256
  read_u8-lt i = All-get_or IsByte p i 0 w (omega arith)

  pub read_u16-lt : (i : ℕ) → read_u16 p i < 2 ^ 16
  read_u16-lt i = omega (arith, read_u8-lt i, read_u8-lt (i + 1))

  pub read_u32-lt : (i : ℕ) → read_u32 p i < 2 ^ 32
  read_u32-lt i =
      omega (arith, read_u8-lt i, read_u8-lt (i + 1), read_u8-lt (i + 2), read_u8-lt (i + 3))

  pub read_u64-lt : (i : ℕ) → read_u64 p i < 2 ^ 64
  read_u64-lt i = omega (arith, read_u32-lt i, read_u32-lt (i + 4))

  pub be16-read_u16 : (i : ℕ) → be16 (read_u16 p i) ≡ read_u8 p i ∷ read_u8 p (i + 1) ∷ []
  be16-read_u16 i = be16-word16 _ _ (read_u8-lt i) (read_u8-lt (i + 1))

  pub be32-read_u32 :
      (i : ℕ)
      → be32 (read_u32 p i)
        ≡ read_u8 p i ∷ read_u8 p (i + 1) ∷ read_u8 p (i + 2) ∷ read_u8 p (i + 3) ∷ []
  be32-read_u32 i =
      be32-word32 _ _ _ _ (read_u8-lt i) (read_u8-lt (i + 1)) (read_u8-lt (i + 2))
        (read_u8-lt (i + 3))

  pub be64-read_u64 :
      (i : ℕ)
      → be64 (read_u64 p i)
        ≡ read_u8 p i
          ∷ read_u8 p (i + 1)
          ∷ read_u8 p (i + 2)
          ∷ read_u8 p (i + 3)
          ∷ read_u8 p (i + 4)
          ∷ read_u8 p (i + 4 + 1)
          ∷ read_u8 p (i + 4 + 2)
          ∷ read_u8 p (i + 4 + 3)
          ∷ []
  be64-read_u64 i =
      be64-word64 (read_u64 p i) (read_u32 p i) (read_u32 p (i + 4)) (read_u32-lt i)
        (read_u32-lt (i + 4)) refl
      ∙ ap (λ t. t ++ be32 (read_u32 p (i + 4))) (be32-read_u32 i)
      ∙ ap (λ t. read_u8 p i ∷ read_u8 p (i + 1) ∷ read_u8 p (i + 2) ∷ read_u8 p (i + 3) ∷ t)
          (be32-read_u32 (i + 4))
