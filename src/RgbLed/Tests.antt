-- ===== src/RgbLed/Tests.antt =====
-- Runs of the LED, and its theorems at concrete inputs.
use sensor_libs.Prelude.{ℕ, ◌+◌, ◌≡◌, ◌≢◌, ◌<◌, refl}
use sensor_libs.RgbLed.{
  led_priority_count, disabled, solid, fade_fast, blink_slow, idle, app, error, number, RgbLed,
  highest_enabled, new_led, initialize, set_led, set_from_hex, get_active, brightness, wave_pos,
}
use sensor_libs.RgbLed.Priorities.{IsHighest, set_led_lem}

abbrev lit : RgbLed ℕ
lit = set_led error blink_slow 7 (set_led idle solid 5 (new_led 0))

error_shows : get_active lit ≡ record { pattern = blink_slow; color = 7 }
unfolding get_active set_led highest_enabled number new_led
error_shows = refl

idle_returns : get_active (set_led error disabled 0 lit) ≡ record { pattern = solid; color = 5 }
unfolding get_active set_led highest_enabled number new_led
idle_returns = refl

initialize_keeps : get_active (initialize 0 lit) ≡ record { pattern = blink_slow; color = 7 }
unfolding get_active initialize set_led highest_enabled number new_led
initialize_keeps = refl

-- On a new LED a colour sets a pattern that is off.
hex_test :
    get_active (set_from_hex (λ r g b. r + g + b) 0x010203 app (new_led 0))
    ≡ record { pattern = disabled; color = 0 }
unfolding get_active set_from_hex set_led highest_enabled number new_led
hex_test = refl

fade_test : brightness fade_fast 1_250_000 ≡ (750_000, 1_000_000)
unfolding brightness wave_pos
fade_test = refl

set_led_lem_example :
    let after = set_led app disabled 0 lit in
    (after.patterns 2 ≡ record { pattern = disabled; color = 0 })
    × ((q : ℕ) → q ≢ 2 → after.patterns q ≡ lit.patterns q)
    × ((p : ℕ)
        → IsHighest after.patterns led_priority_count p
        → after.active_pattern ≡ after.patterns p)
    × (((q : ℕ) → q < led_priority_count → (after.patterns q).pattern ≡ disabled)
        → after.active_pattern ≡ lit.active_pattern)
unfolding number
set_led_lem_example = set_led_lem app disabled 0 lit
