-- ===== src/RgbLed/Waves.antt =====
-- The fading and blinking patterns over time.
use sensor_libs.Prelude.{ℕ, suc, ◌%◌, ◌≡◌, refl, ◌≤◌, leb, ◌&&◌, arith, if◌then◌else◌}
use sensor_libs.RgbLed.{
  fade_ultrafast, fade_fast, fade_slow, blink_slow, blink_fast, blink_ultrafast, wave_pos,
  brightness,
}

-- The fraction that `f` gives is at most 1, and from one microsecond to the next its numerator moves by
-- at most one, over the same denominator.
pub IsGradual : (ℕ → ℕ × ℕ) → ℕ → Type 0
IsGradual f t =
    ((f t).0 ≤ (f t).1)
    × ((f (suc t)).1 ≡ (f t).1)
    × ((f (suc t)).0 ≤ suc (f t).0)
    × ((f t).0 ≤ suc (f (suc t)).0)

-- At every microsecond the three fading patterns are gradual: their brightness is at most 1, and within
-- a microsecond it moves by at most one part of the period.
pub fading-IsGradual :
    (t : ℕ)
    → IsGradual (brightness fade_slow) t
      × IsGradual (brightness fade_fast) t
      × IsGradual (brightness fade_ultrafast) t
unfolding IsGradual brightness wave_pos
fading-IsGradual t = (
  (ground arith, refl, ground arith, ground arith),
  (ground arith, refl, ground arith, ground arith),
  (ground arith, refl, ground arith, ground arith),
)

-- The three blinking patterns are lit, at full brightness, in the middle half of every two periods, and
-- dark in the rest of them.
pub blinking_lem :
    (t : ℕ)
    → (brightness blink_slow t
        ≡ (if leb 200_000 (t % 800_000) && leb (t % 800_000) 600_000 then (1, 1) else (0, 1)))
      × (brightness blink_fast t
          ≡ (if leb 100_000 (t % 400_000) && leb (t % 400_000) 300_000 then (1, 1) else (0, 1)))
      × (brightness blink_ultrafast t
          ≡ (if leb 50_000 (t % 200_000) && leb (t % 200_000) 150_000 then (1, 1) else (0, 1)))
unfolding brightness wave_pos
blinking_lem t = (ground arith, ground arith, ground arith)
