-- ===== src/SyncPackets/Pop.antt =====
-- lib_util/sync_packets.h: what `pop` takes from the queues.
use sensor_libs.Prelude.{
  ℕ, ◌≡◌, ◌⊎◌, inl, inr, refl, ap, Option, none, some, List, [], ◌∷◌, length, drop, get_elem?,
  arith,
}
use sensor_libs.SyncPackets.{Long, take_closest, PacketType, PacketSyncClosest, Group, popped, pop}
use sensor_libs.SyncPackets.Order.{IsSorted, get_elem?-stamp, drop-IsSorted}
use sensor_libs.SyncPackets.Closest.{Brackets, IsClosest, find_closest_lem}

module _ {A : Type 0} (timestamp_us : A → ℕ) where
  -- Either the queue is empty, and then nothing is written and it stays empty; or a nearest packet of
  -- the queue is written, the queue afterwards starts with it, and is in order.
  pub Takes : ℕ → List A → Option A → List A → Type 0
  Takes ts xs out rest =
      ((xs ≡ []) × (out ≡ none) × (rest ≡ []))
      ⊎ ((i : ℕ) × (y : A) × IsClosest timestamp_us xs ts i
          × (get_elem? xs i ≡ some y)
          × (out ≡ some y)
          × (rest ≡ drop i xs)
          × IsSorted timestamp_us (drop i xs))

  take_lem :
      (long : Long) (ts : ℕ) (xs : List A)
      → (xs ≡ []) ⊎ Brackets timestamp_us long ts xs
      → (out : Option A) × (rest : List A) × (take_closest timestamp_us long ts xs
          ≡ some (out, rest))
        × Takes ts xs out rest
  unfolding take_closest Takes
  take_lem long ts [] h = (none, [], refl, inl (refl, refl, refl))
  take_lem long ts (x ∷ xs) (inl e) = absurd (omega (arith, ap length e))
  take_lem long ts (x ∷ xs) (inr b) =
      let (i, found, closest) = find_closest_lem timestamp_us long ts (x ∷ xs) b in
      let (y, at_i, y_i) = get_elem?-stamp timestamp_us (x ∷ xs) i closest.0 in
      (
        some y,
        drop i (x ∷ xs),
        rw (take_closest, found, at_i),
        inr (i, y, closest, at_i, refl, refl, drop-IsSorted timestamp_us i (x ∷ xs) b.sorted),
      )

module _ (t1 t2 t3 t4 t5 : PacketType) where
  -- If the first queue has a packet, and each of the others is empty or brackets its timestamp, then
  -- `pop` returns 0 and reads nothing outside a queue. It writes that first packet and takes it from
  -- its queue, and from each other queue that is not empty it writes a packet nearest to it, and keeps
  -- the queue from there on.
  pub pop_closest :
      (long : Long) (s : PacketSyncClosest t1 t2 t3 t4 t5) (first : t1.Packet)
      (rest : List t1.Packet)
      → s.packets_t1 ≡ first ∷ rest
      → (s.packets_t2 ≡ []) ⊎ Brackets t2.timestamp_us long (t1.timestamp_us first) s.packets_t2
      → (s.packets_t3 ≡ []) ⊎ Brackets t3.timestamp_us long (t1.timestamp_us first) s.packets_t3
      → (s.packets_t4 ≡ []) ⊎ Brackets t4.timestamp_us long (t1.timestamp_us first) s.packets_t4
      → (s.packets_t5 ≡ []) ⊎ Brackets t5.timestamp_us long (t1.timestamp_us first) s.packets_t5
      → (g : Group t1 t2 t3 t4 t5) × (s' : PacketSyncClosest t1 t2 t3 t4 t5) × (pop t1 t2 t3 t4 t5
            long s
          ≡ popped g s')
        × (g.packet_t1 ≡ first)
        × (s'.packets_t1 ≡ rest)
        × Takes t2.timestamp_us (t1.timestamp_us first) s.packets_t2 g.packet_t2 s'.packets_t2
        × Takes t3.timestamp_us (t1.timestamp_us first) s.packets_t3 g.packet_t3 s'.packets_t3
        × Takes t4.timestamp_us (t1.timestamp_us first) s.packets_t4 g.packet_t4 s'.packets_t4
        × Takes t5.timestamp_us (t1.timestamp_us first) s.packets_t5 g.packet_t5 s'.packets_t5
  unfolding pop
  pop_closest long s first rest e h2 h3 h4 h5 =
      let ts = t1.timestamp_us first in
      let (p2, q2, e2, took2) = take_lem t2.timestamp_us long ts s.packets_t2 h2 in
      let (p3, q3, e3, took3) = take_lem t3.timestamp_us long ts s.packets_t3 h3 in
      let (p4, q4, e4, took4) = take_lem t4.timestamp_us long ts s.packets_t4 h4 in
      let (p5, q5, e5, took5) = take_lem t5.timestamp_us long ts s.packets_t5 h5 in
      (
        record {
          packet_t1 = first;
          packet_t2 = p2;
          packet_t3 = p3;
          packet_t4 = p4;
          packet_t5 = p5;
        },
        record {
          packets_t1 = rest;
          packets_t2 = q2;
          packets_t3 = q3;
          packets_t4 = q4;
          packets_t5 = q5;
        },
        rw (pop, e, e2, e3, e4, e5),
        refl,
        refl,
        took2,
        took3,
        took4,
        took5,
      )
