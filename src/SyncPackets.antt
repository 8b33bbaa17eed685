-- ===== src/SyncPackets.antt =====
-- lib_util/sync_packets.h: `PacketSyncClosest`, five queues of packets in the order of their
-- timestamps. `long`, which `std::labs` takes, has 32 or 64 bits: that depends on the processor.
-- `std::lower_bound` is the standard library's.
use sensor_libs.Prelude.{
  ℕ, zero, suc, ◌+◌, ◌-◌, ◌^◌, ◌%◌, ◌<◌, ◌≤◌, ◌≡◌, Bool, true, false, Option, none, some, List, [],
  ◌∷◌, ◌++◌, length, drop, get_elem?, sub64, ltb, if◌then◌else◌,
}
pub mod Closest
pub mod Order
pub mod Pop
mod Tests

pub data Long : Type 0 where
  long32 long64 : Long

abbrev pub half : Long → ℕ
half long32 = 2 ^ 31
half long64 = 2 ^ 63

-- `std::labs` of a `uint64_t`: the word is cut to a `long`, and where its sign bit is set it is negated.
unfoldable pub labs : Long → ℕ → ℕ
labs long32 word = if ltb (word % 2 ^ 32) (2 ^ 31) then word % 2 ^ 32 else 2 ^ 32 - word % 2 ^ 32
labs long64 word = if ltb (word % 2 ^ 64) (2 ^ 63) then word % 2 ^ 64 else 2 ^ 64 - word % 2 ^ 64

module _ {A : Type 0} (timestamp_us : A → ℕ) where
  -- `packets.back()`, with the timestamp that is compared.
  unfoldable pub monotonic : List A → ℕ → Bool
  monotonic [] ts = true
  monotonic (x ∷ []) ts = if ltb ts (timestamp_us x) then false else true
  monotonic (x ∷ y ∷ rest) ts = monotonic (y ∷ rest) ts

  -- `none` is the result -1, which leaves the queue as it is.
  unfoldable pub push : List A → A → Option (List A)
  unfolding monotonic
  push packets packet =
      if monotonic packets (timestamp_us packet) then some (packets ++ (packet ∷ [])) else none

  -- The index that `std::lower_bound` finds.
  unfoldable pub lower_bound : List A → ℕ → ℕ
  lower_bound [] ts = 0
  lower_bound (x ∷ xs) ts = if ltb (timestamp_us x) ts then suc (lower_bound xs ts) else 0

  -- The index of the packet; `none` is a read before the first packet or after the last one.
  unfoldable pub find_closest_packet : Long → ℕ → List A → Option ℕ
  unfolding lower_bound labs
  find_closest_packet long ts packets = elim (lower_bound packets ts) [
    | zero ↦ none
    | suc before ↦ elim (get_elem? packets before) [
      | none ↦ none
      | some x ↦ elim (get_elem? packets (suc before)) [
        | none ↦ none
        | some y ↦ some (
            if ltb (labs long (sub64 (timestamp_us x) ts)) (labs long (sub64 (timestamp_us y) ts))
            then before
            else suc before)
      ]
    ]
  ]

  -- The part of `pop` that is about one of the queues: what it writes to its argument, if it does, and
  -- the queue with the packets before that one erased.
  unfoldable pub take_closest : Long → ℕ → List A → Option (Option A × List A)
  take_closest long ts [] = some (none, [])
  take_closest long ts (x ∷ xs) = elim (find_closest_packet long ts (x ∷ xs)) [
    | none ↦ none
    | some i ↦ elim (get_elem? (x ∷ xs) i) [ none ↦ none | some y ↦ some (some y, drop i (x ∷ xs)) ]
  ]

-- A type of packet, and where its timestamp is.
pub record PacketType : Type 1 where
  pub Packet : Type 0
  pub timestamp_us : Packet → ℕ

module _ (t1 t2 t3 t4 t5 : PacketType) where
  pub record PacketSyncClosest : Type 0 where
    pub packets_t1 : List t1.Packet
    pub packets_t2 : List t2.Packet
    pub packets_t3 : List t3.Packet
    pub packets_t4 : List t4.Packet
    pub packets_t5 : List t5.Packet

  -- What `pop` writes through its pointers.
  pub record Group : Type 0 where
    pub packet_t1 : t1.Packet
    pub packet_t2 : Option t2.Packet
    pub packet_t3 : Option t3.Packet
    pub packet_t4 : Option t4.Packet
    pub packet_t5 : Option t5.Packet

  -- -1; a read outside a queue; 0.
  pub data Popped : Type 0 where
    empty outside : Popped
    popped : Group → PacketSyncClosest → Popped

  unfoldable pub clear : PacketSyncClosest
  clear = record {
    packets_t1 = [];
    packets_t2 = [];
    packets_t3 = [];
    packets_t4 = [];
    packets_t5 = [];
  }

  unfoldable pub pop : Long → PacketSyncClosest → Popped
  pop long s = elim s.packets_t1 [
    | [] ↦ empty
    | first ∷ rest ↦
        let ts = t1.timestamp_us first in
        elim (take_closest t2.timestamp_us long ts s.packets_t2) [
          | none ↦ outside
          | some (p2, q2) ↦ elim (take_closest t3.timestamp_us long ts s.packets_t3) [
            | none ↦ outside
            | some (p3, q3) ↦ elim (take_closest t4.timestamp_us long ts s.packets_t4) [
              | none ↦ outside
              | some (p4, q4) ↦ elim (take_closest t5.timestamp_us long ts s.packets_t5) [
                | none ↦ outside
                | some (p5, q5) ↦
                    popped
                      (record {
                        packet_t1 = first;
                        packet_t2 = p2;
                        packet_t3 = p3;
                        packet_t4 = p4;
                        packet_t5 = p5;
                      })
                      (record {
                        packets_t1 = rest;
                        packets_t2 = q2;
                        packets_t3 = q3;
                        packets_t4 = q4;
                        packets_t5 = q5;
                      })
              ]
            ]
          ]
        ]
  ]
