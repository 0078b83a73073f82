-- ===== src/Transport/Loopback/Order.antt =====
-- What leaves a lane against what was accepted into it, over any interleaving of the two sides.
use lado_flow.Base.{
  ℕ, ◌≡◌, refl, ap, ◌∙◌, arith, true, false, Option, none, List, [], ◌∷◌, ◌++◌, ◌⊎◌, inl, inr,
  if◌then◌else◌, Bool-cases, ok, All,
}
use mathlib.Core.Path.{subst}
use mathlib.Core.List.{append-nil, append_assoc, Sublistᴰ}
use mathlib.Core.List.Sublistᴰ
use lado_flow.Transport.Packet.{Channel, control, media, Packet}
use lado_flow.Transport.Queue.{BoundedQueue, try_push}
use lado_flow.Transport.Queue.Order.{entered, left, try_push-Sublist, try_push-eq, pop-eq}
use lado_flow.Transport.Loopback.{
  Side, other, Link, Direction, push_channel, pop_channel, outgoing, set_outgoing, try_send,
  try_receive, reconnect, Call, send, receive, state, disconnecting, reconnecting, Reply, sent,
  received, joined, perform,
}
use lado_flow.Transport.Loopback.Accounts.{
  same_channel, packets_in, under_way, taken, given, accepted, delivered, after, stays_up,
}

-- The step of a lane by a call with its answer and its next link, up to a relation.
record LaneStep (R : List Packet → List Packet → Type 0) (s : Side) (ch : Channel) (k : Call)
    (l : Link) (r : Reply × Link) : Type 0 where
  up : r.1.connected ≡ true
  order : R (given s ch k r.0 ++ under_way s ch r.1) (under_way s ch l ++ taken s ch k r.0)

perform-send :
    (t : Side) (p : Packet) (l : Link)
    → l.connected ≡ true
    → let (r, d) = push_channel p.channel (outgoing t l) p in
      perform (send t p) l ≡ (sent r, set_outgoing t l d)
unfolding perform try_send
perform-send t p l h = ground arith

perform-receive :
    (t : Side) (c : Channel) (l : Link)
    → l.connected ≡ true
    → let (r, d) = pop_channel c (outgoing (other t) l) in
      perform (receive t c) l ≡ (received (ok r), set_outgoing (other t) l d)
unfolding perform try_receive
perform-receive t c l h = ground arith

connected-set_outgoing :
    (t : Side) (l : Link) (d : Direction) → (set_outgoing t l d).connected ≡ l.connected
unfolding set_outgoing
connected-set_outgoing Side.first l d = refl
connected-set_outgoing Side.second l d = refl

-- A relation between lanes that holds between a lane after any send and its packets before with
-- the accepted one.
record LaneOrder (R : List Packet → List Packet → Type 0) (Accepts : Packet → Type 0) : Type 0 where
  reflexive : (xs : List Packet) → R xs xs
  transitive : (xs ys zs : List Packet) → R xs ys → R ys zs → R xs zs
  before : (zs xs ys : List Packet) → R xs ys → R (zs ++ xs) (zs ++ ys)
  behind : (zs xs ys : List Packet) → R xs ys → R (xs ++ zs) (ys ++ zs)
  pushes :
      (q : BoundedQueue) (p : Packet)
      → Accepts p
      → let (r, q') = try_push q p in R q'.packets (q.packets ++ entered p r)

abbrev Sends : (Packet → Type 0) → Channel → Call → Type 0
Sends Accepts ch (send t p) = if same_channel ch p.channel then Accepts p else Unit
Sends Accepts ch k = Unit

module _ {R : List Packet → List Packet → Type 0} {Accepts : Packet → Type 0}
    (o : LaneOrder R Accepts) where
  unchanged : (xs : List Packet) → R xs (xs ++ [])
  unchanged xs = rw append-nil (o.reflexive xs)

  direction_push :
      (ch c : Channel) (d : Direction) (p : Packet)
      → (if same_channel ch c then Accepts p else Unit)
      → let (r, d') = push_channel c d p in
        R (packets_in ch d') (packets_in ch d ++ (if same_channel ch c then entered p r else []))
  unfolding push_channel
  direction_push Channel.control Channel.control d p a = o.pushes d.control p a
  direction_push Channel.media Channel.media d p a = o.pushes d.media p a
  direction_push Channel.control Channel.media d p a = unchanged d.control.packets
  direction_push Channel.media Channel.control d p a = unchanged d.media.packets

  send_step :
      (s t : Side) (ch : Channel) (p : Packet) (l : Link)
      → Sends Accepts ch (send t p)
      → let (r, d) = push_channel p.channel (outgoing t l) p in
        R (under_way s ch (set_outgoing t l d)) (under_way s ch l ++ taken s ch (send t p) (sent r))
  unfolding outgoing set_outgoing
  send_step Side.first Side.first ch p l a = direction_push ch p.channel l.first_to_second p a
  send_step Side.second Side.second ch p l a = direction_push ch p.channel l.second_to_first p a
  send_step Side.first Side.second ch p l a = unchanged (under_way Side.first ch l)
  send_step Side.second Side.first ch p l a = unchanged (under_way Side.second ch l)

  direction_pop :
      (ch c : Channel) (d : Direction)
      → let (r, d') = pop_channel c d in
        packets_in ch d ≡ (if same_channel ch c then left r else []) ++ packets_in ch d'
  unfolding pop_channel
  direction_pop Channel.control Channel.control d = pop-eq d.control
  direction_pop Channel.media Channel.media d = pop-eq d.media
  direction_pop Channel.control Channel.media d = refl
  direction_pop Channel.media Channel.control d = refl

  receive_step :
      (s t : Side) (ch c : Channel) (l : Link)
      → let (r, d) = pop_channel c (outgoing (other t) l) in
        under_way s ch l
        ≡ given s ch (receive t c) (received (ok r)) ++ under_way s ch (set_outgoing (other t) l d)
  unfolding outgoing set_outgoing
  receive_step Side.first Side.second ch c l = direction_pop ch c l.first_to_second
  receive_step Side.second Side.first ch c l = direction_pop ch c l.second_to_first
  receive_step Side.first Side.first ch c l = refl
  receive_step Side.second Side.second ch c l = refl

  perform-LaneStep :
      (s : Side) (ch : Channel) (k : Call) (l : Link)
      → l.connected ≡ true
      → stays_up k ≡ true
      → Sends Accepts ch k
      → LaneStep R s ch k l (perform k l)
  unfolding perform reconnect
  perform-LaneStep s ch (send t p) l h up a =
      rw (perform-send t p l h)
        (record { up = connected-set_outgoing t l _ ∙ h; order = send_step s t ch p l a })
  perform-LaneStep s ch (receive t c) l h up a = rw (perform-receive t c l h) (record {
    up = connected-set_outgoing (other t) l _ ∙ h;
    order = rw (← receive_step s t ch c l) (unchanged (under_way s ch l));
  })
  perform-LaneStep s ch state l h up a = record { up = h; order = unchanged (under_way s ch l) }
  perform-LaneStep s ch disconnecting l h up a = cc
  perform-LaneStep s ch reconnecting l h up a =
      subst (LaneStep R s ch reconnecting l) still_up
        (record { up = h; order = unchanged (under_way s ch l) })
    where
      still_up : (joined false, l) ≡ perform reconnecting l
      still_up = (simp h)

  join :
      (g d e u u' t acc : List Packet)
      → R (d ++ e) (u' ++ acc)
      → R (g ++ u') (u ++ t)
      → R ((g ++ d) ++ e) (u ++ (t ++ acc))
  join g d e u u' t acc x y =
      rw (append_assoc g d e, ← append_assoc u t acc)
        (o.transitive _ (g ++ (u' ++ acc)) _ (o.before g (d ++ e) (u' ++ acc) x)
          (rw (← append_assoc g u' acc) (o.behind acc (g ++ u') (u ++ t) y)))

  run-LaneOrder :
      (s : Side) (ch : Channel) (ks : List Call) (l : Link)
      → l.connected ≡ true
      → All (λ k. stays_up k ≡ true) ks
      → All (Sends Accepts ch) ks
      → R
          (delivered s ch ks l ++ under_way s ch (after ks l))
          (under_way s ch l ++ accepted s ch ks l)
  unfolding delivered after accepted
  run-LaneOrder s ch [] l h up a = unchanged (under_way s ch l)
  run-LaneOrder s ch (k ∷ ks) l h up a =
      let m = perform-LaneStep s ch k l h up.0 a.0 in
      let l' = (perform k l).1 in
      join (given s ch k (perform k l).0) (delivered s ch ks l') _ (under_way s ch l)
        (under_way s ch l') (taken s ch k (perform k l).0) (accepted s ch ks l')
        (run-LaneOrder s ch ks l' m.up up.1 a.1) m.order

Sublistᴰ-LaneOrder : LaneOrder Sublistᴰ (λ _. Unit)
Sublistᴰ-LaneOrder = record {
  reflexive = Sublistᴰ.refl;
  transitive = λ xs ys zs. Sublistᴰ.trans;
  before = λ zs xs ys. Sublistᴰ.append (Sublistᴰ.refl zs);
  behind = λ zs xs ys h. Sublistᴰ.append h (Sublistᴰ.refl zs);
  pushes = λ q p _. try_push-Sublist q p;
}

eq-LaneOrder : LaneOrder ◌≡◌ (λ p. p.supersession_key ≡ none)
eq-LaneOrder = record {
  reflexive = λ xs. refl;
  transitive = λ xs ys zs p q. p ∙ q;
  before = λ zs xs ys. ap (◌++◌ zs);
  behind = λ zs xs ys. ap (λ t. t ++ zs);
  pushes = try_push-eq;
}

-- A call that sends no control packet with a key, as the constructors of packets provide.
abbrev pub IsPlain : Call → Type 0
IsPlain (send t p) = (p.channel ≡ media) ⊎ (p.supersession_key ≡ none)
IsPlain k = Unit

any_send : (ch : Channel) (ks : List Call) → All (Sends (λ _. Unit) ch) ks
any_send ch [] = tt
any_send ch (send t p ∷ ks) = (
  elim (Bool-cases (same_channel ch p.channel)) [ inl e ↦ rw e tt | inr e ↦ rw e tt ],
  any_send ch ks,
)
any_send ch (receive t c ∷ ks) = (tt, any_send ch ks)
any_send ch (state ∷ ks) = (tt, any_send ch ks)
any_send ch (disconnecting ∷ ks) = (tt, any_send ch ks)
any_send ch (reconnecting ∷ ks) = (tt, any_send ch ks)

plain_one :
    (c : Channel) (key : Option ℕ)
    → (c ≡ media) ⊎ (key ≡ none)
    → (if same_channel control c then key ≡ none else Unit)
plain_one Channel.control key (inl e) = absurd (cc)
plain_one Channel.control key (inr e) = e
plain_one Channel.media key h = tt

plain_send :
    (ks : List Call) → All IsPlain ks → All (Sends (λ p. p.supersession_key ≡ none) control) ks
plain_send [] a = tt
plain_send (send t p ∷ ks) a = (plain_one p.channel p.supersession_key a.0, plain_send ks a.1)
plain_send (receive t c ∷ ks) a = (tt, plain_send ks a.1)
plain_send (state ∷ ks) a = (tt, plain_send ks a.1)
plain_send (disconnecting ∷ ks) a = (tt, plain_send ks a.1)
plain_send (reconnecting ∷ ks) a = (tt, plain_send ks a.1)

module _ (s : Side) (ks : List Call) (l : Link) (h : l.connected ≡ true)
    (up : All (λ k. stays_up k ≡ true) ks) where
  -- On a connected link with no disconnect among the calls, on either channel, what one side's peer
  -- received followed by what is still under way to it is a sublist, in order, of what was under
  -- way before followed by what was accepted since.
  pub delivered-Sublist :
      (ch : Channel)
      → Sublistᴰ
          (delivered s ch ks l ++ under_way s ch (after ks l))
          (under_way s ch l ++ accepted s ch ks l)
  delivered-Sublist ch = run-LaneOrder Sublistᴰ-LaneOrder s ch ks l h up (any_send ch ks)

  -- On a connected link, with no disconnect among the calls and no key on the control packets that
  -- are sent, the control packets that one side's peer received, with those still under way to it,
  -- are exactly those under way before followed by those accepted since, in order.
  pub delivered-accepted :
      All IsPlain ks
      → delivered s control ks l ++ under_way s control (after ks l)
        ≡ under_way s control l ++ accepted s control ks l
  delivered-accepted plain = run-LaneOrder eq-LaneOrder s control ks l h up (plain_send ks plain)
