-- ===== src/RgbLed/Driver.antt =====
-- lib_util/rgb_led_driver.h, rgb_led_driver.cpp: the colour and the brightness as duty cycles of the four
-- outputs. The operations on `float` and the outputs are the platform's. `duty` is what each output was
-- last set to, and every call sets the frequency 1000.
use Prim.Native.String.{String}
use sensor_libs.Prelude.{
  ℕ, ◌≡◌, refl, Bool, true, false, ◌&&◌, ◌==◌, Option, none, some, if◌then◌else◌,
}

pub data Pin : Type 0 where
  red green blue white : Pin

-- `literal` is a constant as it is written.
pub record Float : Type 1 where
  pub F : Type 0
  pub literal : String → F
  pub add : F → F → F
  pub mul : F → F → F
  pub above : F → F → Bool
  pub equal : F → F → Bool

module _ (float : Float) where
  open float use {F, literal, add, mul, above, equal}

  pub record Rgb : Type 0 where
    pub r : F
    pub g : F
    pub b : F

  pub record RgbLedDriver : Type 0 where
    pub colors : Rgb
    pub white_active : Bool
    pub duty : Pin → F

  abbrev pub off : F
  off = literal "100"

  -- `level > 0.01 ? m * level + t : 100`; the code multiplies from the left.
  unfoldable pub duty_of : F → F → F
  duty_of level scaled = if above level (literal "0.01") then add scaled (literal "100") else off

  unfoldable pub duty_at : F → F → F
  unfolding duty_of
  duty_at brightness color =
      duty_of (mul brightness color) (mul (mul (literal "-30") brightness) color)

  unfoldable pub set_brightness : F → RgbLedDriver → RgbLedDriver
  unfolding duty_at
  set_brightness brightness driver = record driver {
    duty =
        if driver.white_active
        then (λ pin. elim pin [
          | white ↦ duty_at brightness (literal "1")
          | color ↦ driver.duty color
        ])
        else (λ pin. elim pin [
          | red ↦ duty_at brightness driver.colors.r
          | green ↦ duty_at brightness driver.colors.g
          | blue ↦ duty_at brightness driver.colors.b
          | white ↦ driver.duty white
        ]);
  }

  abbrev is_white : Rgb → Bool
  is_white rgb = equal rgb.r (literal "1") && equal rgb.g (literal "1") && equal rgb.b (literal "1")

  -- The two branches of `set_color`, by the test for white.
  unfoldable pub coloured : Bool → Rgb → RgbLedDriver
  unfolding duty_of
  coloured true rgb = record {
    colors = rgb;
    white_active = true;
    duty = λ pin. elim pin [
      | white ↦ add (mul (literal "-30") (literal "1")) (literal "100")
      | _ ↦ off
    ];
  }
  coloured false rgb = record {
    colors = rgb;
    white_active = false;
    duty = λ pin. elim pin [
      | red ↦ duty_of rgb.r (mul (literal "-30") rgb.r)
      | green ↦ duty_of rgb.g (mul (literal "-30") rgb.g)
      | blue ↦ duty_of rgb.b (mul (literal "-30") rgb.b)
      | white ↦ off
    ];
  }

  unfoldable pub set_color : Rgb → RgbLedDriver → RgbLedDriver
  unfolding coloured
  set_color rgb driver = coloured (is_white rgb) rgb

  unfoldable pub get_color : RgbLedDriver → Rgb
  get_color driver = driver.colors

  abbrev ShowsOneKind : Rgb → RgbLedDriver → Type 0
  ShowsOneKind rgb after =
      (get_color after ≡ rgb)
      × (if after.white_active
          then (after.duty red ≡ off) × (after.duty green ≡ off) × (after.duty blue ≡ off)
          else (after.duty white ≡ off))

  coloured-ShowsOneKind :
      (b : Bool) (rgb : Rgb) (brightness : F)
      → ShowsOneKind rgb (set_brightness brightness (coloured b rgb))
  unfolding get_color set_brightness coloured
  coloured-ShowsOneKind true rgb brightness = (refl, (refl, refl, refl))
  coloured-ShowsOneKind false rgb brightness = (refl, refl)

  -- Whatever colour and brightness are set, the outputs of the other kind are off: those of the three
  -- colours, or the white one.
  pub set_color-set_brightness :
      (rgb : Rgb) (brightness : F) (driver : RgbLedDriver)
      → ShowsOneKind rgb (set_brightness brightness (set_color rgb driver))
  unfolding set_color
  set_color-set_brightness rgb brightness driver =
      coloured-ShowsOneKind (is_white rgb) rgb brightness

  -- `pwm_init` gives the return codes of `wiced_pwm_init`, 0 for `WICED_SUCCESS`. A colour's failure
  -- makes the result -1, which is `none`: or'ing another code into it changes nothing.
  unfoldable pub init : (Pin → ℕ) → RgbLedDriver → Option ℕ × RgbLedDriver
  init pwm_init driver = (
    if pwm_init red == 0 && pwm_init green == 0 && pwm_init blue == 0
        then some (pwm_init white)
        else none,
    record driver { white_active = false; duty = λ pin. off },
  )
