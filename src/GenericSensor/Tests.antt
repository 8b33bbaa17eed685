-- ===== src/GenericSensor/Tests.antt =====
-- The settings of lib_util/generic_sensor.h at some numbers.
use sensor_libs.Prelude.{◌≡◌, refl, true, false}
use sensor_libs.GenericSensor.{
  pos, negsuc, of_gyr_scale_range, of_sample_rate, find_value, is_valid_enum_value,
}

samples :
    (is_valid_enum_value of_sample_rate (pos 200) ≡ true)
    × (is_valid_enum_value of_sample_rate (negsuc 0) ≡ false)
    × (is_valid_enum_value of_gyr_scale_range (pos 125) ≡ false)
unfolding is_valid_enum_value find_value
samples = (refl, refl, refl)
