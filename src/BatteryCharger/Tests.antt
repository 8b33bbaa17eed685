-- ===== src/BatteryCharger/Tests.antt =====
-- A chip in memory, and the theorems of Registers on it.
use sensor_libs.Prelude.{
  ℕ, ◌≡◌, refl, true, ◌&&◌, some, List, [], ◌∷◌, get_or, tabulate, ◌==◌, ==_iff, if◌then◌else◌,
  codes, arith, none,
}
use sensor_libs.BatteryCharger.{
  success, Bus, Target, charge_details, top_off_time, charger_status_as_str, battery_status_as_str,
  text_of, after_success, read_device,
}
use sensor_libs.BatteryCharger.Gauge.{
  set_shutdown_timer, get_shutdown_threshold, get_shutdown_counter,
}
use sensor_libs.BatteryCharger.Registers.{Device, set_shutdown_timer-get_shutdown}

record Chip : Type 0 where
  cells : ℕ → ℕ → ℕ → ℕ
  selected : ℕ

abbrev chip_write : Chip → ℕ → List ℕ → Chip
chip_write s d [] = s
chip_write s d (r ∷ bytes) = record {
  cells = λ e q i. if d == e && r == q then get_or bytes i (s.cells e q i) else s.cells e q i;
  selected = r;
}

abbrev chip_bus : Bus Chip
chip_bus = record {
  i2c_init = λ s d. s;
  i2c_write = λ s d f bytes. (true, chip_write s d bytes);
  i2c_read = λ s d f n. (some (tabulate n (s.cells d s.selected)), s);
  i2c_deinit = λ s d. s;
}

chip_writes :
    (s : Chip) (d r : ℕ) (bytes : List ℕ) (i : ℕ)
    → (chip_write s d (r ∷ bytes)).cells d r i ≡ get_or bytes i (s.cells d r i)
chip_writes s d r bytes i = rw ((==_iff d d).1 refl, (==_iff r r).1 refl) refl

abbrev chip : Device chip_bus
chip = record {
  cell = λ s d r i. s.cells d r i;
  after_init = λ s e d r i. refl;
  after_deinit = λ s e d r i. refl;
  write_succeeds = λ s d f bytes. refl;
  after_write = λ s d f r bytes i. chip_writes s d r bytes i;
  read_selected = λ s d f g r n. refl;
  after_read = λ s e g n d r i. refl;
}

abbrev target : Target
target = record { wiced_error = 4; pointer_size = 4; beyond = 7 ∷ 8 ∷ 9 ∷ 10 ∷ [] }

abbrev worn : Chip
worn = record { cells = λ d r i. 0xb5; selected = 0 }

charge_details_test : (charge_details chip_bus target worn).0 ≡ success (5, 3)
unfolding charge_details after_success read_device
charge_details_test = refl

top_off_time_test : (top_off_time chip_bus target worn).0 ≡ success 6
unfolding top_off_time after_success read_device
top_off_time_test = refl

threshold_test : (get_shutdown_threshold chip_bus target worn).0 ≡ 5
unfolding get_shutdown_threshold read_device
threshold_test = refl

text_test : battery_status_as_str 4 ≡ (codes "ok_low_voltagef", some 0)
unfolding battery_status_as_str text_of
text_test = refl

invalid_test : charger_status_as_str 5 ≡ (codes "invalid_status", none)
unfolding charger_status_as_str text_of
invalid_test = refl

set_shutdown_timer-get_shutdown_example :
    let after = (set_shutdown_timer chip_bus target 2 worn).1 in
    ((get_shutdown_threshold chip_bus target after).0 ≡ 0)
    × ((get_shutdown_counter chip_bus target after).0
        ≡ (get_shutdown_counter chip_bus target worn).0)
set_shutdown_timer-get_shutdown_example =
    set_shutdown_timer-get_shutdown chip_bus target chip 1 refl 2 worn (λ r i. omega arith)
