-- ===== src/Transport/Queue/Counted.antt =====
-- The byte counter of a lane, its capacities, and the lane against its specification.
use lado_flow.Base.{
  ℕ, ◌+◌, ◌≤◌, ◌≡◌, refl, ap, arith, Option, none, some, List, [], ◌∷◌, ◌++◌, length, length-append,
  Bool-cases, inl, inr,
}
use lado_flow.Protocol.Frame.{usize_max}
use lado_flow.Transport.Packet.{
  Packet, packet_len, QueueLimits, QueueDepth, no_depth, saturating_add,
}
use lado_flow.Transport.Queue.{
  BoundedQueue, new_queue, has_key, superseded_from, superseded_by, without_key, retain_other,
  try_push, pop, pop_from, clear,
}
use lado_flow.Transport.Queue.Spec.{
  total, occupancy, with_key, obsolete, others, current, offer, take_oldest,
}

-- Limits that fit a usize.
pub record IsBounded (limits : QueueLimits) : Type 0 where
  pub packets : limits.max_packets ≤ usize_max
  pub bytes : limits.max_queued_bytes ≤ usize_max

-- The counter is the sum of the sizes, and neither capacity is exceeded.
pub record IsCounted (limits : QueueLimits) (q : BoundedQueue) : Type 0 where
  pub same_limits : q.limits ≡ limits
  pub counted : q.queued_bytes ≡ total q.packets
  pub packets_fit : length q.packets ≤ limits.max_packets
  pub bytes_fit : q.queued_bytes ≤ limits.max_queued_bytes

total-append : (xs ys : List Packet) → total (xs ++ ys) ≡ total xs + total ys
total-append [] ys = omega arith
total-append (x ∷ xs) ys = omega (arith, total-append xs ys)

-- The packets with the key and the others make up the queue.
with_key-length :
    (key : ℕ) (ps : List Packet) → length (with_key key ps) + length (others key ps) ≡ length ps
with_key-length key [] = omega arith
with_key-length key (p ∷ ps) = ground (arith, with_key-length key ps)

with_key-total :
    (key : ℕ) (ps : List Packet) → total (with_key key ps) + total (others key ps) ≡ total ps
with_key-total key [] = omega arith
with_key-total key (p ∷ ps) = ground (arith, with_key-total key ps)

without_key-eq : (key : ℕ) (ps : List Packet) → without_key key ps ≡ others key ps
unfolding without_key
without_key-eq key [] = refl
without_key-eq key (p ∷ ps) = ground (arith, without_key-eq key ps)

-- While nothing saturates, the loop adds the number and the sizes of the packets with the key.
superseded_from-eq :
    (key : ℕ) (acc : QueueDepth) (ps : List Packet)
    → acc.packets + length ps ≤ usize_max
    → acc.bytes + total ps ≤ usize_max
    → superseded_from key acc ps ≡ record {
      packets = acc.packets + length (with_key key ps);
      bytes = acc.bytes + total (with_key key ps);
    }
unfolding superseded_from
superseded_from-eq key acc [] h k = ground arith
superseded_from-eq key acc (p ∷ ps) h k = elim (Bool-cases (has_key key p.supersession_key)) [
  | inl e ↦ rw e (
      ground (
        arith,
        superseded_from-eq key
            (record {
              packets = saturating_add acc.packets 1;
              bytes = saturating_add acc.bytes (packet_len p);
            })
            ps,
      ))
  | inr e ↦ rw e (superseded_from-eq key acc ps (omega arith) (omega arith))
]

-- What a packet makes obsolete, and what stays.
superseded_by-eq :
    (ps : List Packet) (key : Option ℕ)
    → length ps ≤ usize_max
    → total ps ≤ usize_max
    → superseded_by ps key ≡ occupancy (obsolete key ps)
unfolding superseded_by
superseded_by-eq ps none h k = refl
superseded_by-eq ps (some key) h k = ground (arith, superseded_from-eq key no_depth ps)

retain_other-eq : (key : Option ℕ) (ps : List Packet) → retain_other key ps ≡ current key ps
unfolding retain_other
retain_other-eq none ps = refl
retain_other-eq (some key) ps = without_key-eq key ps

pub obsolete-length :
    (key : Option ℕ) (ps : List Packet)
    → length (obsolete key ps) + length (current key ps) ≡ length ps
obsolete-length none ps = omega arith
obsolete-length (some key) ps = with_key-length key ps

pub obsolete-total :
    (key : Option ℕ) (ps : List Packet)
    → total (obsolete key ps) + total (current key ps) ≡ total ps
obsolete-total none ps = omega arith
obsolete-total (some key) ps = with_key-total key ps

module _ {limits : QueueLimits} (b : IsBounded limits) {q : BoundedQueue}
    (v : IsCounted limits q) where
  pub try_push-offer :
      (p : Packet)
      → let (r, q') = try_push q p in
        ((r, q'.packets) ≡ offer limits q.packets p) × IsCounted limits q'
  unfolding try_push offer
  try_push-offer p = ground (
    arith,
    superseded_by-eq q.packets p.supersession_key,
    retain_other-eq p.supersession_key q.packets,
    obsolete-length p.supersession_key q.packets,
    obsolete-total p.supersession_key q.packets,
    total-append (current p.supersession_key q.packets) (p ∷ []),
    length-append (current p.supersession_key q.packets) (p ∷ []),
  )

  pop_from-take_oldest :
      (ps : List Packet)
      → q.packets ≡ ps
      → let (r, q') = pop_from q ps in ((r, q'.packets) ≡ take_oldest ps) × IsCounted limits q'
  unfolding pop_from take_oldest
  pop_from-take_oldest [] e = ground arith
  pop_from-take_oldest (p ∷ ps) e = ground (arith, ap total e, ap length e)

  pub pop-take_oldest :
      let (r, q') = pop q in ((r, q'.packets) ≡ take_oldest q.packets) × IsCounted limits q'
  unfolding pop
  pop-take_oldest = pop_from-take_oldest q.packets refl

pub new_queue-IsCounted : (limits : QueueLimits) → IsCounted limits (new_queue limits)
new_queue-IsCounted limits = ground arith

pub clear-occupancy :
    {limits : QueueLimits} {q : BoundedQueue}
    → IsCounted limits q
    → (clear q ≡ (occupancy q.packets, new_queue limits))
unfolding clear
clear-occupancy v = ground arith
