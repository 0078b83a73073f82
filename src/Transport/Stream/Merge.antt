-- ===== src/Transport/Stream/Merge.antt =====
-- The mux over any transport that hands out its two lanes in order.
use lado_flow.Base.{
  ℕ, zero, suc, ◌+◌, ◌<◌, ◌≡◌, refl, ap, ◌∙◌, arith, Option, none, some, List, [], ◌∷◌, ◌++◌,
  length, Result, ok,
}
use native.Mathlib.Decide.{dec_lt}
use lado_flow.Transport.Packet.{Channel, control, media, Packet, PacketTransport}
use lado_flow.Transport.Stream.{
  LdflStreamError, LdflPacketMux, new_mux, pick, pick_earlier, pick_lone, fill_slot, next, drain,
}
use lado_flow.Transport.Stream.Items.{
  Item, packets, Ascending, Apart, done, After-trans, Apart-rest, Merged, put_left, put_right,
}

abbrev pub first_of : List Packet → Option Packet
first_of [] = none
first_of (p ∷ ps) = some p

abbrev pub rest_of : List Packet → List Packet
rest_of [] = []
rest_of (p ∷ ps) = ps

abbrev pub slot_list : Option Packet → List Packet
slot_list none = []
slot_list (some p) = p ∷ []

-- What a transport promises of `try_receive` in the states where it is up: the oldest packet of
-- the lane leaves it, and the other lane stays.
pub record Delivers {S : Type 0} (t : PacketTransport S) (held : Channel → S → List Packet)
    (IsUp : S → Type 0) : Type 0 where
  pub answers : (s : S) (ch : Channel) → IsUp s → (t.try_receive s ch).0 ≡ ok (first_of (held ch s))
  pub leaves :
      (s : S) (ch : Channel) → IsUp s → held ch (t.try_receive s ch).1 ≡ rest_of (held ch s)
  pub control_stays : (s : S) → IsUp s → held control (t.try_receive s media).1 ≡ held control s
  pub media_stays : (s : S) → IsUp s → held media (t.try_receive s control).1 ≡ held media s
  pub stays_up : (s : S) (ch : Channel) → IsUp s → IsUp (t.try_receive s ch).1

pick_control :
    (x y : Item)
    → x.number < y.number
    → pick (some x.packet) (some y.packet)
      ≡ (ok (some x.packet), record { control = none; media = some y.packet })
unfolding pick pick_earlier
pick_control x y h = ground (arith, x.numbered, y.numbered)

pick_media :
    (x y : Item)
    → y.number < x.number
    → pick (some x.packet) (some y.packet)
      ≡ (ok (some y.packet), record { control = some x.packet; media = none })
unfolding pick pick_earlier
pick_media x y h = ground (arith, x.numbered, y.numbered)

pick_one :
    (x : Item)
    → (pick (some x.packet) none ≡ (ok (some x.packet), new_mux))
      × (pick none (some x.packet) ≡ (ok (some x.packet), new_mux))
unfolding pick pick_lone
pick_one x = ground (arith, x.numbered)

module _ {S : Type 0} (t : PacketTransport S) (held : Channel → S → List Packet) (IsUp : S → Type 0)
    (d : Delivers t held IsUp) where
  -- The packets of a lane, the slot's first.
  abbrev pub control_lane : LdflPacketMux → S → List Packet
  control_lane m s = slot_list m.control ++ held control s

  abbrev pub media_lane : LdflPacketMux → S → List Packet
  media_lane m s = slot_list m.media ++ held media s

  record Filled (ch : Channel) (lane : List Packet) (s : S)
      (r : Result LdflStreamError (Option Packet) × S) : Type 0 where
    answer : r.0 ≡ ok (first_of lane)
    rest : held ch r.1 ≡ rest_of lane
    up : IsUp r.1

  fill_slot-Filled :
      (ch : Channel) (slot : Option Packet) (s : S)
      → IsUp s
      → Filled ch (slot_list slot ++ held ch s) s (fill_slot t ch slot s)
  unfolding fill_slot
  fill_slot-Filled ch none s u = record {
    answer = rw (d.answers s ch u) refl;
    rest = d.leaves s ch u;
    up = d.stays_up s ch u;
  }
  fill_slot-Filled ch (some p) s u = record { answer = refl; rest = refl; up = u }

  fill_control_media :
      (slot : Option Packet) (s : S)
      → IsUp s
      → held media (fill_slot t control slot s).1 ≡ held media s
  unfolding fill_slot
  fill_control_media none s u = d.media_stays s u
  fill_control_media (some p) s u = refl

  fill_media_control :
      (slot : Option Packet) (s : S)
      → IsUp s
      → held control (fill_slot t media slot s).1 ≡ held control s
  unfolding fill_slot
  fill_media_control none s u = d.control_stays s u
  fill_media_control (some p) s u = refl

  record Picked (xs ys : List Packet) (m : LdflPacketMux) (s : S) : Type 0 where
    after : S
    result :
        next t m s
        ≡ ((pick (first_of xs) (first_of ys)).0, (pick (first_of xs) (first_of ys)).1, after)
    control_rest : held control after ≡ rest_of xs
    media_rest : held media after ≡ rest_of ys
    up : IsUp after

  next-Picked :
      (xs ys : List Packet) (m : LdflPacketMux) (s : S)
      → IsUp s
      → control_lane m s ≡ xs
      → media_lane m s ≡ ys
      → Picked xs ys m s
  unfolding next
  next-Picked xs ys m s u p q =
      let f = fill_slot-Filled control m.control s u in
      let s1 = (fill_slot t control m.control s).1 in
      let g = fill_slot-Filled media m.media s1 f.up in
      let same = fill_control_media m.control s u in
      let one : (fill_slot t control m.control s).0 ≡ ok (first_of xs) =
        f.answer ∙ ap (λ l. ok (first_of l)) p in
      let lane : media_lane m s1 ≡ ys = ap (◌++◌ (slot_list m.media)) same ∙ q in
      let two : (fill_slot t media m.media s1).0 ≡ ok (first_of ys) =
        g.answer ∙ ap (λ l. ok (first_of l)) lane in
      record {
        after = (fill_slot t media m.media s1).1;
        result = rw (one, next) (rw (two, next) refl);
        control_rest = fill_media_control m.media s1 f.up ∙ f.rest ∙ ap rest_of p;
        media_rest = g.rest ∙ ap rest_of lane;
        up = g.up;
      }

  drain_step :
      (fuel : ℕ) (m m' : LdflPacketMux) (s : S) (x : Item) (xs ys rest : List Packet)
      (p : Picked xs ys m s)
      → pick (first_of xs) (first_of ys) ≡ (ok (some x.packet), m')
      → drain t fuel m' p.after ≡ ok rest
      → drain t (suc fuel) m s ≡ ok (x.packet ∷ rest)
  unfolding drain
  drain_step fuel m m' s x xs ys rest p e h = rw (p.result, e, h) refl

  drain_end :
      (fuel : ℕ) (m : LdflPacketMux) (s : S) → Picked [] [] m s → drain t (suc fuel) m s ≡ ok []
  unfolding drain pick
  drain_end fuel m s p = rw p.result refl

  pub drain-Merged :
      (fuel : ℕ) (xs ys : List Item) (m : LdflPacketMux) (s : S)
      → IsUp s
      → control_lane m s ≡ packets xs
      → media_lane m s ≡ packets ys
      → Ascending xs
      → Ascending ys
      → Apart xs ys
      → length xs + length ys < fuel
      → Merged xs ys (drain t fuel m s)
  drain-Merged zero xs ys m s u p q a b c h = absurd (omega arith)
  drain-Merged (suc fuel) [] [] m s u p q a b c h = record {
    items = [];
    returned = drain_end fuel m s (next-Picked [] [] m s u p q);
    whole = done;
    ordered = tt;
  }
  drain-Merged (suc fuel) (x ∷ xs) [] m s u p q a b c h =
      let k = next-Picked (packets (x ∷ xs)) [] m s u p q in
      let r =
        drain-Merged fuel xs [] new_mux k.after k.up k.control_rest k.media_rest a.1 tt c.1
          (omega arith) in
      put_left x r a.0 tt
        (drain_step fuel m new_mux s x _ _ (packets r.items) k (pick_one x).0 r.returned)
  drain-Merged (suc fuel) [] (y ∷ ys) m s u p q a b c h =
      let k = next-Picked [] (packets (y ∷ ys)) m s u p q in
      let r =
        drain-Merged fuel [] ys new_mux k.after k.up k.control_rest k.media_rest tt b.1 tt
          (omega arith) in
      put_right y r tt b.0
        (drain_step fuel m new_mux s y _ _ (packets r.items) k (pick_one y).1 r.returned)
  drain-Merged (suc fuel) (x ∷ xs) (y ∷ ys) m s u p q a b c h = elim (dec_lt x.number y.number) [
    | yes lt ↦
        let k = next-Picked (packets (x ∷ xs)) (packets (y ∷ ys)) m s u p q in
        let m' : LdflPacketMux = record { control = none; media = some y.packet } in
        let r =
          drain-Merged fuel xs (y ∷ ys) m' k.after k.up k.control_rest
            (ap (◌∷◌ y.packet) k.media_rest) a.1 b c.1 (omega arith) in
        put_left x r a.0 (lt, After-trans x.number y.number ys lt b.0)
          (drain_step fuel m m' s x _ _ (packets r.items) k (pick_control x y lt) r.returned)
    | no ge ↦
        let lt : y.number < x.number = omega (arith, c.0.0) in
        let k = next-Picked (packets (x ∷ xs)) (packets (y ∷ ys)) m s u p q in
        let m' : LdflPacketMux = record { control = some x.packet; media = none } in
        let r =
          drain-Merged fuel (x ∷ xs) ys m' k.after k.up (ap (◌∷◌ x.packet) k.control_rest)
            k.media_rest a b.1 (Apart-rest (x ∷ xs) y ys c) (omega arith) in
        put_right y r (lt, After-trans y.number x.number xs lt a.0) b.0
          (drain_step fuel m m' s y _ _ (packets r.items) k (pick_media x y lt) r.returned)
  ]
