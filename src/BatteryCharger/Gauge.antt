-- ===== src/BatteryCharger/Gauge.antt =====
-- lib_util/battery_charger.h, `FuelGauge`: the measurements and the shutdown timer. The operations on
-- `float` are the platform's, so a parameter.
use Prim.Native.Nat.{bit_or, bit_and}
use Prim.Native.String.{String}
use sensor_libs.Prelude.{ℕ, ◌/◌, ◌-◌, ◌%◌, ◌*◌, ◌^◌, ltb, if◌then◌else◌, List, [], ◌∷◌, get_or}
use sensor_libs.BatteryCharger.{
  Reading, success, error, Bus, Target, ◌>>=◌, return, read_device, write_device,
}

abbrev pub gauge_address : ℕ
gauge_address = 0x6c / 2

abbrev pub fg_status : ℕ
fg_status = 0x00

abbrev pub fg_temp_reg : ℕ
fg_temp_reg = 0x08

abbrev pub fg_vcell_reg : ℕ
fg_vcell_reg = 0x09

abbrev pub fg_current_reg : ℕ
fg_current_reg = 0x0a

abbrev pub fg_avg_current_reg : ℕ
fg_avg_current_reg = 0x0b

abbrev pub fg_config : ℕ
fg_config = 0x1d

abbrev pub fg_sd_timer : ℕ
fg_sd_timer = 0x3f

-- `literal` is a constant as it is written, `from_unsigned` and `from_negative` convert an integer
-- that is not below 0 and the negative of one.
pub record Float : Type 1 where
  pub F : Type 0
  pub literal : String → F
  pub from_unsigned : ℕ → F
  pub from_negative : ℕ → F
  pub add : F → F → F
  pub mul : F → F → F
  pub div : F → F → F

-- `hi << 8 | lo` in 16 bits.
unfoldable pub word_of : List ℕ → ℕ
word_of bytes = bit_or (get_or bytes 1 0 * 2 ^ 8) (get_or bytes 0 0)

module _ (float : Float) where
  -- An `int16_t` with the given bits, as a `float`.
  unfoldable pub from_int16 : ℕ → float.F
  from_int16 w = if ltb w (2 ^ 15) then float.from_unsigned w else float.from_negative (2 ^ 16 - w)

  module _ {S : Type 0} (bus : Bus S) (target : Target) where
    unfoldable pub get_temperature : S → Reading float.F × S
    get_temperature = do
      temp ← read_device bus target gauge_address fg_temp_reg 2
      return (
          float.add (float.mul (float.from_unsigned (get_or temp 1 0)) (float.literal "1.0f"))
            (float.mul (float.from_unsigned (get_or temp 0 0)) (float.literal "0.0039f")))

    unfoldable pub get_voltage : S → Reading float.F × S
    unfolding word_of
    get_voltage = do
      volt ← read_device bus target gauge_address fg_vcell_reg 2
      return (float.mul (float.from_unsigned (word_of volt)) (float.literal "78.125e-6"))

    unfoldable pub get_inst_current : S → Reading float.F × S
    unfolding word_of from_int16
    get_inst_current = do
      curr ← read_device bus target gauge_address fg_current_reg 2
      return (float.div (from_int16 (word_of curr)) (float.literal "330.0"))

    unfoldable pub get_avg_current : S → Reading float.F × S
    unfolding word_of
    get_avg_current = do
      curr ← read_device bus target gauge_address fg_avg_current_reg 2
      return (
          float.mul (float.mul (float.from_unsigned (word_of curr)) (float.literal "1.5625"))
            (float.literal "1e-6"))

module _ {S : Type 0} (bus : Bus S) (target : Target) where
  -- The register is read, and nothing of it reaches the caller's `status`.
  unfoldable pub status : S → Reading (List ℕ) × S
  status = do status_reg_val ← read_device bus target gauge_address fg_status 2; return []

  unfoldable pub set_shutdown_timer : ℕ → S → Reading (List ℕ) × S
  set_shutdown_timer timer = do
    read_reg ← read_device bus target gauge_address fg_sd_timer 2
    write_device bus target gauge_address
        (fg_sd_timer ∷ get_or read_reg 0 0 ∷ bit_and (get_or read_reg 1 0) 0x1f ∷ []) 2

  -- The return code of a failed read comes out as the threshold, in 8 bits.
  unfoldable pub get_shutdown_threshold : S → ℕ × S
  get_shutdown_threshold s =
      let got = read_device bus target gauge_address fg_sd_timer 2 s in
      elim got.0 [
        | error rc ↦ (rc % 2 ^ 8, got.1)
        | success read_reg ↦ (get_or read_reg 1 0 / 32, got.1)
      ]

  unfoldable pub get_shutdown_counter : S → ℕ × S
  get_shutdown_counter s =
      let got = read_device bus target gauge_address fg_sd_timer 2 s in
      elim got.0 [
        | error rc ↦ (rc % 2 ^ 16, got.1)
        | success read_reg ↦
            (bit_or (bit_and (get_or read_reg 1 0) 0x1f * 2 ^ 8) (get_or read_reg 0 0), got.1)
      ]

  unfoldable pub device_shutdown : S → Reading (List ℕ) × S
  device_shutdown = do
    read_reg ← read_device bus target gauge_address fg_config 2
    written ←
        write_device bus target gauge_address
          (fg_config ∷ bit_or 0x80 (get_or read_reg 0 0) ∷ get_or read_reg 1 0 ∷ []) 2
    status_reg_val ← read_device bus target gauge_address fg_config 3
    return []
