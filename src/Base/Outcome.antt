-- ===== src/Base/Outcome.antt =====
-- Rust's `Result<A, E>`, with `?` as the bind of a do block.
use mathlib.Core.Path.{◌≡◌, refl}
use mathlib.Core.Logic.{◌⊎◌, inl, inr}
use mathlib.Core.Bool.{Bool, true, false}

pub data Result {ℓ} (E : Type 0) (A : Type ℓ) : Type ℓ where
  ok : A → Result E A
  err : E → Result E A

infixl 5 ◌>>=◌ ◌>>◌
abbrev pub ◌>>=◌ {ℓ κ} :
    {E : Type 0} {A : Type ℓ} {B : Type κ} → Result E A → (A → Result E B) → Result E B
ok a >>= f = f a
err e >>= f = err e

abbrev pub ◌>>◌ {ℓ} : {E : Type 0} {B : Type ℓ} → Result E (Unit {0}) → Result E B → Result E B
m >> k = m >>= λ _. k

-- An early `return Err(e)` where the test fails.
abbrev pub guard : {E : Type 0} → Bool → E → Result E (Unit {0})
guard true e = ok tt
guard false e = err e

abbrev pub IsOk {ℓ} : {E : Type 0} {A : Type ℓ} → Result E A → Type ℓ
IsOk {A} r = (a : A) × (r ≡ ok a)

pub Result-cases {ℓ} :
    {E : Type 0} {A : Type ℓ} (r : Result E A) → ((a : A) × (r ≡ ok a)) ⊎ ((e : E) × (r ≡ err e))
Result-cases (ok a) = inl (a, refl)
Result-cases (err e) = inr (e, refl)

-- What is encoded in some way that is read back is read back from every such encoding.
pub read_back {ℓ κ} :
    {E : Type 0} {A : Type ℓ} {B : Type κ} (encode : A → Result E B) (decode : B → Result E A)
    (a : A) (b : B)
    → encode a ≡ ok b
    → (q : B) × (encode a ≡ ok q) × (decode q ≡ ok a)
    → decode b ≡ ok a
read_back encode decode a b e (q, f, r) = let same : b ≡ q = cc (e, f) in cc (same, r)
