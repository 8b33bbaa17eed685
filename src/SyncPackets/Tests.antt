-- ===== src/SyncPackets/Tests.antt =====
-- Packets that are timestamps, and each theorem on queues of them.
use sensor_libs.Prelude.{ℕ, zero, suc, ◌≡◌, inl, inr, refl, none, some, List, [], ◌∷◌, arith}
use sensor_libs.SyncPackets.{
  long32, push, find_closest_packet, PacketType, PacketSyncClosest, Group, popped, pop,
}
use sensor_libs.SyncPackets.Order.{IsSorted}
use sensor_libs.SyncPackets.Closest.{Brackets, IsClosest, find_closest_lem}
use sensor_libs.SyncPackets.Pop.{Takes, pop_closest}

abbrev us : ℕ → ℕ
us n = n

abbrev two : List ℕ
two = 10 ∷ 20 ∷ []

two-IsSorted : IsSorted us two
two-IsSorted zero zero h l = omega arith
two-IsSorted zero (suc zero) h l = omega arith
two-IsSorted (suc zero) (suc zero) h l = omega arith
two-IsSorted (suc i) zero h l = absurd (omega arith)
two-IsSorted (suc (suc i)) (suc zero) h l = absurd (omega arith)
two-IsSorted i (suc (suc j)) h l = absurd (omega arith)

pushed : push us two 25 ≡ some (10 ∷ 20 ∷ 25 ∷ [])
unfolding push
pushed = refl

refused : push us two 19 ≡ none
unfolding push
refused = refl

bracketed : Brackets us long32 14 two
bracketed = record {
  sorted = two-IsSorted;
  nonempty = omega arith;
  before = omega arith;
  behind = omega arith;
  in_word = omega arith;
  near_first = omega arith;
  near_last = omega arith;
}

find_closest_lem_example :
    (i : ℕ) × (find_closest_packet us long32 14 two ≡ some i) × IsClosest us two 14 i
find_closest_lem_example = find_closest_lem us long32 14 two bracketed

found : find_closest_packet us long32 14 two ≡ some 0
unfolding find_closest_packet
found = refl

abbrev clock : PacketType
clock = record { Packet = ℕ; timestamp_us = us }

abbrev queues : PacketSyncClosest clock clock clock clock clock
queues = record {
  packets_t1 = 14 ∷ 16 ∷ [];
  packets_t2 = two;
  packets_t3 = [];
  packets_t4 = two;
  packets_t5 = [];
}

pop_closest_example :
    (g : Group clock clock clock clock clock) × (s' : PacketSyncClosest clock clock clock clock
      clock)
    × (pop clock clock clock clock clock long32 queues ≡ popped g s')
    × (g.packet_t1 ≡ 14)
    × (s'.packets_t1 ≡ 16 ∷ [])
    × Takes us 14 two g.packet_t2 s'.packets_t2
    × Takes us 14 [] g.packet_t3 s'.packets_t3
    × Takes us 14 two g.packet_t4 s'.packets_t4
    × Takes us 14 [] g.packet_t5 s'.packets_t5
pop_closest_example =
    pop_closest clock clock clock clock clock long32 queues 14 (16 ∷ []) refl (inr bracketed)
      (inl refl) (inr bracketed) (inl refl)
