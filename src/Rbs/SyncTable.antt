-- ===== src/Rbs/SyncTable.antt =====
-- lib_rbs/rbs_sync_table.h, rbs_sync_table.cpp: timestamps and the table of linear clock mappings.
-- A `double` is the bit pattern of its 64 bits; what is computed with doubles is a parameter.
use sensor_libs.Prelude.{
  ℕ, ◌≡◌, ◌≢◌, inl, inr, Bool, true, false, ◌&&◌, ◌||◌, Option, none, some, List, [], ◌∷◌,
  replicate, ◌==◌, if◌then◌else◌, arith, Option-cases,
}

pub record Timestamp : Type 0 where
  pub sequence_id : ℕ
  pub timestamp_us : ℕ
  pub daemon_id : ℕ

pub record SyncTableEntry : Type 0 where
  pub sensor_id : ℕ
  pub sensor_instance_id : ℕ
  pub m : ℕ
  pub t : ℕ

-- `rows` has 32 entries.
pub record SyncTable : Type 0 where
  pub table_id : ℕ
  pub daemon_id : ℕ
  pub rows : List SyncTableEntry

abbrev pub max_rows : ℕ
max_rows = 32

abbrev pub zero_entry : SyncTableEntry
zero_entry = record { sensor_id = 0; sensor_instance_id = 0; m = 0; t = 0 }

abbrev pub zero_table : SyncTable
zero_table = record { table_id = 0; daemon_id = 0; rows = replicate max_rows zero_entry }

-- The first row of the sensor; `none` is the result -1.
unfoldable pub find_coeff : List SyncTableEntry → ℕ → Option (ℕ × ℕ)
find_coeff [] id = none
find_coeff (row ∷ rows) id = if row.sensor_id == id then some (row.m, row.t) else find_coeff rows id

unfoldable pub get_coeff : SyncTable → ℕ → Option (ℕ × ℕ)
unfolding find_coeff
get_coeff table id = find_coeff table.rows id

unfoldable pub find_entry : List SyncTableEntry → ℕ → ℕ → Bool
find_entry [] id instance_id = false
find_entry (row ∷ rows) id instance_id =
    (row.sensor_id == id && row.sensor_instance_id == instance_id) || find_entry rows id instance_id

unfoldable pub has_entry : SyncTable → ℕ → ℕ → Bool
unfolding find_entry
has_entry table id instance_id = find_entry table.rows id instance_id

-- `calculate_synced_time` on the active table; `synced m t local` is `(uint64_t) ceil (m * local + t)`.
unfoldable pub calculate_synced_time : (ℕ → ℕ → ℕ → ℕ) → SyncTable → ℕ → ℕ → Option ℕ
unfolding get_coeff
calculate_synced_time synced table id time_us_local = elim (get_coeff table id) [
  | none ↦ none
  | some (m, t) ↦ some (synced m t time_us_local)
]

coeff-entry :
    (rows : List SyncTableEntry) (id instance_id : ℕ)
    → find_entry rows id instance_id ≡ true
    → find_coeff rows id ≢ none
unfolding find_coeff find_entry
coeff-entry [] id instance_id h = λ e. cc
coeff-entry (row ∷ rows) id instance_id h = ground (arith, coeff-entry rows id instance_id)

-- For every way to compute with the coefficients: a sensor that has an entry in the table, under any
-- instance, has a synced time, and that is computed from the coefficients that `get_coeff` finds.
pub synced_time_of_entry :
    (synced : ℕ → ℕ → ℕ → ℕ) (table : SyncTable) (id instance_id time_us : ℕ)
    → has_entry table id instance_id ≡ true
    → (m : ℕ) × (t : ℕ) × (get_coeff table id ≡ some (m, t))
      × (calculate_synced_time synced table id time_us ≡ some (synced m t time_us))
unfolding has_entry calculate_synced_time
synced_time_of_entry synced table id instance_id time_us h =
    elim (Option-cases (get_coeff table id)) [
      | inl e ↦ absurd (coeff-entry table.rows id instance_id h e)
      | inr (c, e) ↦ (c.0, c.1, e, ground (arith, e))
    ]
