-- ===== src/Transport/Queue/Order.antt =====
-- The order of the packets of a lane under sends and receives.
use lado_flow.Base.{
  ℕ, ◌≡◌, refl, sym, arith, Option, none, some, List, [], ◌∷◌, ◌++◌, inl, inr, Bool-cases, Result,
  ok, err,
}
use mathlib.Core.List.{append-nil, Sublistᴰ}
use mathlib.Core.List.Sublistᴰ
use lado_flow.Transport.Packet.{Packet, SendError, SendReport}
use lado_flow.Transport.Queue.{
  BoundedQueue, has_key, without_key, retain_other, too_large, is_full, try_push, pop, pop_from,
}

-- The packet, where a send accepted it.
abbrev pub entered : Packet → Result SendError SendReport → List Packet
entered p (ok report) = p ∷ []
entered p (err e) = []

abbrev pub left : Option Packet → List Packet
left none = []
left (some p) = p ∷ []

without_key-Sublist : (key : ℕ) (ps : List Packet) → Sublistᴰ (without_key key ps) ps
unfolding without_key
without_key-Sublist key [] = Sublistᴰ.refl []
without_key-Sublist key (p ∷ ps) = elim (Bool-cases (has_key key p.supersession_key)) [
  | inl e ↦ rw e (Sublistᴰ.cons (without_key-Sublist key ps))
  | inr e ↦ rw e (Sublistᴰ.cons-cons refl (without_key-Sublist key ps))
]

retain_other-Sublist : (key : Option ℕ) (ps : List Packet) → Sublistᴰ (retain_other key ps) ps
unfolding retain_other
retain_other-Sublist none ps = Sublistᴰ.refl ps
retain_other-Sublist (some key) ps = without_key-Sublist key ps

-- A send adds the packet at the end where it is accepted, and removes packets at most.
pub try_push-Sublist :
    (q : BoundedQueue) (p : Packet)
    → let (r, q') = try_push q p in Sublistᴰ q'.packets (q.packets ++ entered p r)
unfolding try_push
try_push-Sublist q p = elim (Bool-cases (too_large q p)) [
  | inl e ↦ rw (e, append-nil) (Sublistᴰ.refl q.packets)
  | inr e ↦ elim (Bool-cases (is_full q p)) [
    | inl f ↦ rw (e, f, append-nil) (Sublistᴰ.refl q.packets)
    | inr f ↦
        rw (e, f)
          (Sublistᴰ.append (retain_other-Sublist p.supersession_key q.packets)
            (Sublistᴰ.refl (p ∷ [])))
  ]
]

-- A packet with no key removes nothing.
pub try_push-eq :
    (q : BoundedQueue) (p : Packet)
    → p.supersession_key ≡ none
    → let (r, q') = try_push q p in q'.packets ≡ q.packets ++ entered p r
unfolding try_push retain_other
try_push-eq q p h = ground (arith, append-nil q.packets)

pop_from-eq :
    (q : BoundedQueue) (ps : List Packet)
    → q.packets ≡ ps
    → let (r, q') = pop_from q ps in ps ≡ left r ++ q'.packets
unfolding pop_from
pop_from-eq q [] h = sym h
pop_from-eq q (p ∷ ps) h = refl

-- A receive takes the packet at the front.
pub pop-eq : (q : BoundedQueue) → let (r, q') = pop q in q.packets ≡ left r ++ q'.packets
unfolding pop
pop-eq q = pop_from-eq q q.packets refl
