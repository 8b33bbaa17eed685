-- ===== src/RgbLed.antt =====
-- lib_util/rgb_led.h, rgb_led.cpp: the patterns that the parts of the program show on the LED. Each call
-- of `set` and `get_active` holds the mutex, so it is one step. A colour is of any type `Color`.
use Prim.Native.Nat.{bit_and}
use sensor_libs.Prelude.{
  ℕ, zero, suc, ◌+◌, ◌-◌, ◌*◌, ◌/◌, ◌%◌, ◌^◌, Bool, true, false, not, Option, none, some, ltb, ◌==◌,
  if◌then◌else◌,
}
pub mod Driver
pub mod Priorities
pub mod Waves
mod Tests

pub data LedPattern : Type 0 where
  disabled solid fade_ultrafast fade_fast fade_slow blink_slow blink_fast blink_ultrafast :
      LedPattern

pub data LedPriority : Type 0 where
  idle network app error : LedPriority

abbrev pub led_priority_count : ℕ
led_priority_count = 4

unfoldable pub number : LedPriority → ℕ
number idle = 0
number network = 1
number app = 2
number error = 3

abbrev pub is_disabled : LedPattern → Bool
is_disabled disabled = true
is_disabled _ = false

pub record Setting (Color : Type 0) : Type 0 where
  pub pattern : LedPattern
  pub color : Color

-- `patterns` is `m_patterns` by the number of the priority.
pub record RgbLed (Color : Type 0) : Type 0 where
  pub patterns : ℕ → Setting Color
  pub active_pattern : Setting Color

module _ {Color : Type 0} (black : Color) where
  abbrev dark : Setting Color
  dark = record { pattern = disabled; color = black }

  -- The constructor; the map answers with its default, which is dark too.
  unfoldable pub new_led : RgbLed Color
  new_led = record { patterns = λ p. dark; active_pattern = dark }

  -- The part of `initialize` that changes the object: the active pattern stays.
  unfoldable pub initialize : RgbLed Color → RgbLed Color
  initialize led = record led {
    patterns = λ p. if ltb p led_priority_count then dark else led.patterns p;
  }

module _ {Color : Type 0} where
  -- The loop of `set`, from priority `n - 1` down.
  unfoldable pub highest_enabled : (ℕ → Setting Color) → ℕ → Option (Setting Color)
  highest_enabled patterns zero = none
  highest_enabled patterns (suc p) =
      if is_disabled (patterns p).pattern then highest_enabled patterns p else some (patterns p)

  -- `m_patterns[prio] = std::make_pair(pattern, rgb)`.
  abbrev pub stored : LedPriority → LedPattern → Color → (ℕ → Setting Color) → ℕ → Setting Color
  stored prio pattern rgb patterns p =
      if p == number prio then record { pattern = pattern; color = rgb } else patterns p

  unfoldable pub set_led : LedPriority → LedPattern → Color → RgbLed Color → RgbLed Color
  unfolding highest_enabled
  set_led prio pattern rgb led =
      let patterns = stored prio pattern rgb led.patterns in
      record {
        patterns = patterns;
        active_pattern = elim (highest_enabled patterns led_priority_count) [
          | none ↦ led.active_pattern
          | some top ↦ top
        ];
      }

  unfoldable pub get_active : RgbLed Color → Setting Color
  get_active led = led.active_pattern

  -- `rgb` makes a colour of the three bytes, each of which the code divides by 255.
  unfoldable pub set_from_hex : (ℕ → ℕ → ℕ → Color) → ℕ → LedPriority → RgbLed Color → RgbLed Color
  unfolding set_led
  set_from_hex rgb color_hex priority led =
      set_led priority led.active_pattern.pattern
        (rgb (bit_and (color_hex / 2 ^ 16) 0xff) (bit_and (color_hex / 2 ^ 8) 0xff)
          (bit_and color_hex 0xff))
        led

-- The brightness as a fraction, its numerator first. The period is in microseconds.
unfoldable pub wave_pos : ℕ → ℕ → ℕ
wave_pos time_us period_us =
    let pos = time_us % period_us in if time_us / period_us % 2 == 0 then pos else period_us - pos

unfoldable pub pattern_fade_period : ℕ → ℕ → ℕ × ℕ
unfolding wave_pos
pattern_fade_period time_us period_us = (wave_pos time_us period_us, period_us)

-- Below one half is dark.
unfoldable pub pattern_blink_period : ℕ → ℕ → ℕ × ℕ
unfolding wave_pos
pattern_blink_period time_us period_us =
    if ltb (2 * wave_pos time_us period_us) period_us then (0, 1) else (1, 1)

-- The brightness that `on_led_update` gives the driver. Each period is the constant of the code times
-- 1000000, which is an integer in `float` too.
unfoldable pub brightness : LedPattern → ℕ → ℕ × ℕ
unfolding pattern_fade_period pattern_blink_period
brightness fade_slow t = pattern_fade_period t 2_000_000
brightness fade_fast t = pattern_fade_period t 1_000_000
brightness fade_ultrafast t = pattern_fade_period t 200_000
brightness blink_slow t = pattern_blink_period t 400_000
brightness blink_fast t = pattern_blink_period t 200_000
brightness blink_ultrafast t = pattern_blink_period t 100_000
brightness solid t = (1, 1)
brightness disabled t = (0, 1)
