-- ===== src/BatteryCharger.antt =====
-- lib_util/battery_charger.h, battery_defs.h: the registers of the charger chip, read and written over
-- I²C. The bus is the platform's, so a parameter, and so are the size of a pointer on the target and
-- `beyond`, the memory behind a buffer that is written. The device structure of a call stands as the
-- address in it; the port, the address width and the speed are the same in every call.
use Prim.Native.Nat.{bit_or, bit_and}
use sensor_libs.Prelude.{
  ℕ, ◌/◌, ◌%◌, ◌+◌, ◌*◌, Bool, true, false, Option, none, some, List, [], ◌∷◌, ◌++◌, get_or, take,
  codes, ◌==◌, if◌then◌else◌,
}
pub mod Gauge
pub mod Registers
mod Tests

-- What a function gives its caller: its outputs with the return code 0, or another return code.
pub data Reading (A : Type 0) : Type 0 where
  success : A → Reading A
  error : ℕ → Reading A

pub data BusFlags : Type 0 where
  start start_stop repeated_start_stop : BusFlags

-- The calls of `wiced_i2c_*`, each with the address of the device. A failed read has no bytes.
pub record Bus (S : Type 0) : Type 0 where
  pub i2c_init : S → ℕ → S
  pub i2c_write : S → ℕ → BusFlags → List ℕ → Bool × S
  pub i2c_read : S → ℕ → BusFlags → ℕ → Option (List ℕ) × S
  pub i2c_deinit : S → ℕ → S

pub record Target : Type 0 where
  pub wiced_error : ℕ
  pub pointer_size : ℕ
  pub beyond : List ℕ

abbrev pub charger_address : ℕ
charger_address = 0xd2 / 2

abbrev pub chg_details_01 : ℕ
chg_details_01 = 0xb4

abbrev pub fg_chg_cnfg_03 : ℕ
fg_chg_cnfg_03 = 0xba

abbrev pub chg_cnfg_00_reg : ℕ
chg_cnfg_00_reg = 0xb7

unfoldable pub after_success :
    {S A B : Type 0} → Reading A × S → (A → S → Reading B × S) → Reading B × S
after_success o k = elim o.0 [ success a ↦ k a o.1 | error rc ↦ (error rc, o.1) ]

infixl 5 ◌>>=◌
abbrev pub ◌>>=◌ :
    {S A B : Type 0} → (S → Reading A × S) → (A → S → Reading B × S) → S → Reading B × S
(m >>= k) s = after_success (m s) k

abbrev pub return : {S A : Type 0} → A → S → Reading A × S
return a s = (success a, s)

module _ {S : Type 0} (bus : Bus S) (target : Target) where
  -- Only the return code of the last call counts, and an error leaves the device initialised.
  unfoldable pub read_device : ℕ → ℕ → ℕ → S → Reading (List ℕ) × S
  read_device address read_register read_size s =
      let sent = bus.i2c_write (bus.i2c_init s address) address start (read_register ∷ []) in
      let got = bus.i2c_read sent.1 address repeated_start_stop read_size in
      elim got.0 [
        | none ↦ (error target.wiced_error, got.1)
        | some bytes ↦ (success bytes, bus.i2c_deinit got.1 address)
      ]

  -- `sizeof(write_register)` is the size of the pointer, whatever size the caller gives.
  unfoldable pub write_device : ℕ → List ℕ → ℕ → S → Reading (List ℕ) × S
  write_device address write_register write_reg_size_bytes s =
      let sent =
        bus.i2c_write (bus.i2c_init s address) address start_stop
          (take target.pointer_size (write_register ++ target.beyond)) in
      elim sent.0 [
        | false ↦ (error target.wiced_error, sent.1)
        | true ↦ (success [], bus.i2c_deinit sent.1 address)
      ]

  unfoldable pub top_off_time : S → Reading ℕ × S
  top_off_time = do
    value ← read_device charger_address fg_chg_cnfg_03 1
    return (bit_and (get_or value 0 0 / 8) 0x07)

  -- The status of the charger and the status of the battery.
  unfoldable pub charge_details : S → Reading (ℕ × ℕ) × S
  charge_details = do
    value ← read_device charger_address chg_details_01 1
    return (bit_and (get_or value 0 0) 0x0f, bit_and (get_or value 0 0 / 16) 0x07)

  unfoldable pub enable_ship_mode : S → Reading (List ℕ) × S
  enable_ship_mode = do
    value ← read_device charger_address chg_cnfg_00_reg 1
    write_device charger_address (chg_cnfg_00_reg ∷ bit_or 0x40 (get_or value 0 0) ∷ []) 2

-- The cases of a `switch` on a status: the text with the return code 0, or with -1, which is `none`.
unfoldable pub text_of : List (ℕ × List ℕ) → ℕ → List ℕ × Option ℕ
text_of [] status = (codes "invalid_status", none)
text_of (row ∷ rows) status = if row.0 == status then (row.1, some 0) else text_of rows status

abbrev pub charger_modes : List (ℕ × List ℕ)
charger_modes =
    (0x00, codes "low_battery_pre_qual")
    ∷ (0x01, codes "fast_charge_constant_current")
    ∷ (0x02, codes "fast_charge_constant_voltage")
    ∷ (0x03, codes "top_off")
    ∷ (0x04, codes "done")
    ∷ (0x06, codes "timer_fault")
    ∷ (0x07, codes "high_suspend")
    ∷ (0x08, codes "off")
    ∷ (0x0a, codes "off_high_junction_temperature")
    ∷ (0x0b, codes "off_watchdog_timer")
    ∷ []

abbrev pub battery_modes : List (ℕ × List ℕ)
battery_modes =
    (0x00, codes "no_battery")
    ∷ (0x01, codes "low_battery_pre_qual")
    ∷ (0x02, codes "slow_charge_fault")
    ∷ (0x03, codes "ok_good_voltage")
    ∷ (0x04, codes "ok_low_voltagef")
    ∷ (0x05, codes "over_voltage")
    ∷ (0x06, codes "over_current")
    ∷ []

unfoldable pub charger_status_as_str : ℕ → List ℕ × Option ℕ
unfolding text_of
charger_status_as_str status = text_of charger_modes status

unfoldable pub battery_status_as_str : ℕ → List ℕ × Option ℕ
unfolding text_of
battery_status_as_str status = text_of battery_modes status
