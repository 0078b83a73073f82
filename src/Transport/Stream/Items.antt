-- ===== src/Transport/Stream/Items.antt =====
-- Packets with their sequence numbers, and lanes of them put together in order.
use lado_flow.Base.{ℕ, ◌<◌, ◌≡◌, ◌≢◌, arith, List, [], ◌∷◌, All, Result, ok}
use lado_flow.Transport.Packet.{Packet}
use lado_flow.Transport.Stream.{LdflStreamError, ldfl_packet_sequence}

-- A packet with its sequence number.
pub record Item : Type 0 where
  pub number : ℕ
  pub packet : Packet
  pub numbered : ldfl_packet_sequence packet ≡ ok number

abbrev pub packets : List Item → List Packet
packets [] = []
packets (x ∷ xs) = x.packet ∷ packets xs

abbrev pub After : ℕ → List Item → Type 0
After n = All (λ x. n < x.number)

abbrev pub Ascending : List Item → Type 0
Ascending [] = Unit
Ascending (x ∷ xs) = After x.number xs × Ascending xs

-- No number is in both lanes.
abbrev pub Apart : List Item → List Item → Type 0
Apart xs ys = All (λ x. All (λ y. x.number ≢ y.number) ys) xs

-- `zs` is made of `xs` and `ys`, each in its order.
pub data Interleaves : List Item → List Item → List Item → Type 0 where
  done : Interleaves [] [] []
  left : {xs ys zs : List Item} (x : Item) → Interleaves xs ys zs → Interleaves (x ∷ xs) ys (x ∷ zs)
  right :
      {xs ys zs : List Item} (y : Item) → Interleaves xs ys zs → Interleaves xs (y ∷ ys) (y ∷ zs)

pub After-Interleaves :
    (n : ℕ) {xs ys zs : List Item} → Interleaves xs ys zs → After n xs → After n ys → After n zs
After-Interleaves n done a b = tt
After-Interleaves n (left x i) a b = (a.0, After-Interleaves n i a.1 b)
After-Interleaves n (right y i) a b = (b.0, After-Interleaves n i a b.1)

pub After-trans : (n m : ℕ) (xs : List Item) → n < m → After m xs → After n xs
After-trans n m [] h a = tt
After-trans n m (x ∷ xs) h a = (omega (arith, a.0), After-trans n m xs h a.1)

pub Apart-rest : (xs : List Item) (y : Item) (ys : List Item) → Apart xs (y ∷ ys) → Apart xs ys
Apart-rest [] y ys a = tt
Apart-rest (x ∷ xs) y ys a = (a.0.1, Apart-rest xs y ys a.1)

-- What the calls return, and that it is in order.
pub record Merged (xs ys : List Item) (r : Result LdflStreamError (List Packet)) : Type 0 where
  pub items : List Item
  pub returned : r ≡ ok (packets items)
  pub whole : Interleaves xs ys items
  pub ordered : Ascending items

pub put_left :
    {xs ys : List Item} {r r' : Result LdflStreamError (List Packet)} (x : Item)
    (m : Merged xs ys r)
    → After x.number xs
    → After x.number ys
    → r' ≡ ok (x.packet ∷ packets m.items)
    → Merged (x ∷ xs) ys r'
put_left x m a b e = record {
  items = x ∷ m.items;
  returned = e;
  whole = left x m.whole;
  ordered = (After-Interleaves x.number m.whole a b, m.ordered);
}

pub put_right :
    {xs ys : List Item} {r r' : Result LdflStreamError (List Packet)} (y : Item)
    (m : Merged xs ys r)
    → After y.number xs
    → After y.number ys
    → r' ≡ ok (y.packet ∷ packets m.items)
    → Merged xs (y ∷ ys) r'
put_right y m a b e = record {
  items = y ∷ m.items;
  returned = e;
  whole = right y m.whole;
  ordered = (After-Interleaves y.number m.whole a b, m.ordered);
}
