-- ===== src/Rbs/RoundTrip.antt =====
-- lib_rbs/rbs_message.cpp: which packets are read within bounds, and what is read from them.
use native.Mathlib.Decide.{dec_lt}
use mathlib.Core.Option
use sensor_libs.Prelude.{
  ℕ, zero, suc, ◌+◌, ◌-◌, ◌*◌, ◌^◌, ◌≤◌, ◌<◌, ◌≡◌, ◌≢◌, ◌↔◌, ◌⊎◌, inl, inr, refl, ap, ◌∙◌, Option,
  none, some, List, [], ◌∷◌, ◌++◌, length, drop, length-drop, replicate, ltb, word64, arith, lt→ltb,
  false,
}
use sensor_libs.Prelude.Bytes.{le, from_le-le}
use sensor_libs.Rbs.SyncTable.{SyncTableEntry, max_rows, zero_entry}
use sensor_libs.Rbs.Message.{
  invalid, overrun, parsed, row_size, read_row, read_rows, with_rows, read_sync_packet,
}

map-none {ℓ κ} :
    {A : Type ℓ} {B : Type κ} (f : A → B) (o : Option A) → Option.map f o ≡ none → o ≡ none
map-none f none h = refl
map-none f (some a) h = cc

read_rows_next :
    (left b : ℕ) (bs : List ℕ)
    → row_size ≤ length (b ∷ bs)
    → read_rows (suc left) (b ∷ bs)
      ≡ Option.map (◌∷◌ (read_row (b ∷ bs))) (read_rows left (drop row_size (b ∷ bs)))
unfolding read_rows
read_rows_next left b bs h = let e : ltb (length (b ∷ bs)) row_size ≡ false = ground arith in rw e

read_rows_short :
    (left b : ℕ) (bs : List ℕ) → length (b ∷ bs) < row_size → read_rows (suc left) (b ∷ bs) ≡ none
unfolding read_rows
read_rows_short left b bs h = rw (lt→ltb _ _ h)

read_rows_of_whole :
    (left : ℕ) (bytes : List ℕ) (k : ℕ)
    → k ≤ left
    → length bytes ≡ row_size * k
    → read_rows left bytes ≢ none
unfolding read_rows
read_rows_of_whole left [] k h e = λ z. cc
read_rows_of_whole zero (b ∷ bs) k h e = absurd (omega arith)
read_rows_of_whole (suc left) (b ∷ bs) k h e = rw (read_rows_next left b bs (omega arith)) (λ z.
    read_rows_of_whole left (drop row_size (b ∷ bs)) (k - 1) (omega arith)
      (omega (arith, length-drop row_size (b ∷ bs), e)) (map-none _ _ z))

whole_of_read_rows :
    (left : ℕ) (bytes : List ℕ)
    → read_rows left bytes ≢ none
    → (k : ℕ) × (k ≤ left) × (length bytes ≡ row_size * k)
unfolding read_rows
whole_of_read_rows left [] h = (0, omega arith, refl)
whole_of_read_rows zero (b ∷ bs) h = absurd (h refl)
whole_of_read_rows (suc left) (b ∷ bs) h = elim (dec_lt (length (b ∷ bs)) row_size) [
  | yes short ↦ absurd (h (read_rows_short left b bs short))
  | no long ↦
      let (k, l, e) =
        whole_of_read_rows left (drop row_size (b ∷ bs))
          (λ z. h (read_rows_next left b bs (omega arith) ∙ ap (Option.map _) z)) in
      (suc k, omega arith, omega (arith, e, length-drop row_size (b ∷ bs)))
]

read_long :
    (buffer : List ℕ)
    → 12 ≤ length buffer
    → read_sync_packet buffer ≡ with_rows buffer (read_rows max_rows (drop 12 buffer))
unfolding read_sync_packet
read_long buffer h =
    let e : ltb (length buffer) 4 ≡ false = ground arith in
    let f : ltb (length buffer) 12 ≡ false = ground arith in rw (e, f)

read_middle :
    (buffer : List ℕ) → 4 ≤ length buffer → length buffer < 12 → read_sync_packet buffer ≡ overrun
unfolding read_sync_packet
read_middle buffer h l =
    let e : ltb (length buffer) 4 ≡ false = ground arith in rw (e, lt→ltb _ _ l)

read_short : (buffer : List ℕ) → length buffer < 4 → read_sync_packet buffer ≡ invalid
unfolding read_sync_packet
read_short buffer l = rw (lt→ltb _ _ l)

with_rows-ne-overrun :
    (buffer : List ℕ) (o : Option (List SyncTableEntry)) → o ≢ none → with_rows buffer o ≢ overrun
unfolding with_rows
with_rows-ne-overrun buffer none h = absurd (h refl)
with_rows-ne-overrun buffer (some rows) h = λ z. cc

none_overrun : (buffer : List ℕ) → with_rows buffer none ≡ overrun
unfolding with_rows
none_overrun buffer = refl

-- `read_sync_packet` stays within the packet and the table exactly when the packet is shorter than
-- four bytes, where it returns -1, or is a header of 12 bytes and whole rows of 24 bytes, of which
-- there are at most 32.
pub read_sync_packet_within :
    (buffer : List ℕ)
    → (read_sync_packet buffer ≢ overrun)
      ↔ ((length buffer < 4) ⊎ ((k : ℕ) × (k ≤ max_rows) × (length buffer ≡ 12 + row_size * k)))
read_sync_packet_within buffer = (there, back)
  where
    rest : List ℕ
    rest = drop 12 buffer

    there :
        read_sync_packet buffer ≢ overrun
        → (length buffer < 4) ⊎ ((k : ℕ) × (k ≤ max_rows) × (length buffer ≡ 12 + row_size * k))
    there h = elim (dec_lt (length buffer) 4) [
      | yes l ↦ inl l
      | no g ↦ elim (dec_lt (length buffer) 12) [
        | yes l ↦ absurd (h (read_middle buffer (omega arith) l))
        | no g' ↦
            let long : 12 ≤ length buffer = omega arith in
            let (k, l, e) =
              whole_of_read_rows max_rows rest
                (λ z. h (read_long buffer long ∙ ap (with_rows buffer) z ∙ none_overrun buffer)) in
            inr (k, l, omega (arith, e, length-drop 12 buffer))
      ]
    ]

    back :
        (length buffer < 4) ⊎ ((k : ℕ) × (k ≤ max_rows) × (length buffer ≡ 12 + row_size * k))
        → read_sync_packet buffer ≢ overrun
    back (inl h) = rw (read_short buffer h) (λ z. cc)
    back (inr (k, l, e)) = rw (read_long buffer (omega arith)) (
        with_rows-ne-overrun buffer (read_rows max_rows rest)
          (read_rows_of_whole max_rows rest k l (omega (arith, e, length-drop 12 buffer))))

-- The layout of a sync packet, as the comment in rbs_message.h draws it.
pub row_bytes : List SyncTableEntry → List ℕ
row_bytes [] = []
row_bytes (r ∷ rows) =
    le 4 r.sensor_id ++ (le 4 r.sensor_instance_id ++ (le 8 r.m ++ (le 8 r.t ++ row_bytes rows)))

pub sync_packet : ℕ → ℕ → ℕ → List SyncTableEntry → List ℕ
sync_packet sequence_id table_id daemon_id rows =
    le 4 sequence_id ++ (le 4 table_id ++ (le 4 daemon_id ++ row_bytes rows))

-- The values that the fields of a row can hold.
pub record IsEntry (r : SyncTableEntry) : Type 0 where
  pub sensor_in : r.sensor_id < 2 ^ 32
  pub instance_in : r.sensor_instance_id < 2 ^ 32
  pub m_in : r.m < word64
  pub t_in : r.t < word64

abbrev pub AllEntries : List SyncTableEntry → Type 0
AllEntries [] = Unit {0}
AllEntries (r ∷ rows) = IsEntry r × AllEntries rows

read_row-bytes :
    (r : SyncTableEntry) (rows : List SyncTableEntry)
    → IsEntry r
    → read_row (row_bytes (r ∷ rows)) ≡ r
unfolding read_row row_bytes
read_row-bytes r rows v = λ i. record {
  sensor_id = from_le-le 4 r.sensor_id v.sensor_in i;
  sensor_instance_id = from_le-le 4 r.sensor_instance_id v.instance_in i;
  m = from_le-le 8 r.m v.m_in i;
  t = from_le-le 8 r.t v.t_in i;
}

read_rows-bytes :
    (left : ℕ) (rows : List SyncTableEntry)
    → AllEntries rows
    → length rows ≤ left
    → read_rows left (row_bytes rows) ≡ some (rows ++ replicate (left - length rows) zero_entry)
unfolding read_rows row_bytes
read_rows-bytes left [] v h = ap (λ n. some (replicate n zero_entry)) (omega arith)
read_rows-bytes zero (r ∷ rows) v h = absurd (omega arith)
read_rows-bytes (suc left) (r ∷ rows) v h =
    let e : suc left - suc (length rows) ≡ left - length rows = omega arith in
    let long : ltb (length (row_bytes (r ∷ rows))) row_size ≡ false = ground arith in
    rw (long, read_rows-bytes left rows v.1 (omega arith), e)
      (ap (λ row. some (row ∷ (rows ++ replicate (left - length rows) zero_entry)))
        (read_row-bytes r rows v.0))

header_long : (a b c : ℕ) (rows : List SyncTableEntry) → 12 ≤ length (sync_packet a b c rows)
unfolding sync_packet
header_long a b c rows = omega arith

drop_header :
    (a b c : ℕ) (rows : List SyncTableEntry)
    → read_rows max_rows (drop 12 (sync_packet a b c rows)) ≡ read_rows max_rows (row_bytes rows)
unfolding sync_packet
drop_header a b c rows = refl

with_rows_header :
    (a b c : ℕ) (rows out : List SyncTableEntry)
    → a < 2 ^ 32
    → b < 2 ^ 32
    → c < 2 ^ 32
    → with_rows (sync_packet a b c rows) (some out)
      ≡ parsed a (record { table_id = b; daemon_id = c; rows = out })
unfolding with_rows sync_packet
with_rows_header a b c rows out ha hb hc = λ i.
    parsed (from_le-le 4 a ha i)
      (record { table_id = from_le-le 4 b hb i; daemon_id = from_le-le 4 c hc i; rows = out })

-- A packet of at most 32 rows whose values fit their fields is read back: the sequence id, the ids of
-- the table, and its rows, with zeros in the rows that the packet does not fill.
pub read-sync_packet :
    (sequence_id table_id daemon_id : ℕ) (rows : List SyncTableEntry)
    → sequence_id < 2 ^ 32
    → table_id < 2 ^ 32
    → daemon_id < 2 ^ 32
    → AllEntries rows
    → length rows ≤ max_rows
    → read_sync_packet (sync_packet sequence_id table_id daemon_id rows)
      ≡ parsed sequence_id (record {
        table_id = table_id;
        daemon_id = daemon_id;
        rows = rows ++ replicate (max_rows - length rows) zero_entry;
      })
read-sync_packet sequence_id table_id daemon_id rows hs ht hd v h =
    read_long (sync_packet sequence_id table_id daemon_id rows)
      (header_long sequence_id table_id daemon_id rows)
    ∙ ap (with_rows (sync_packet sequence_id table_id daemon_id rows))
        (drop_header sequence_id table_id daemon_id rows ∙ read_rows-bytes max_rows rows v h)
    ∙ with_rows_header sequence_id table_id daemon_id rows _ hs ht hd
