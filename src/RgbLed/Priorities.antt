-- ===== src/RgbLed/Priorities.antt =====
-- What the LED shows after `set`.
use sensor_libs.Prelude.{
  ℕ, zero, suc, ◌≡◌, ◌≢◌, refl, ◌<◌, true, false, none, some, ◌==◌, arith, Bool-cases, ==_iff, inl,
  inr, ap, ◌∙◌, sym,
}
use sensor_libs.RgbLed.{
  LedPattern, disabled, LedPriority, idle, network, app, error, number, is_disabled, Setting,
  RgbLed, led_priority_count, highest_enabled, stored, set_led, new_led,
}

off_lem : (pattern : LedPattern) → pattern ≡ disabled → is_disabled pattern ≡ true
off_lem pattern e = ap is_disabled e

on_lem : (pattern : LedPattern) → pattern ≢ disabled → is_disabled pattern ≡ false
on_lem disabled ne = absurd (ne refl)
on_lem _ ne = refl

module _ {Color : Type 0} where
  -- Priority `p` is the highest below `n` that is enabled.
  pub IsHighest : (ℕ → Setting Color) → ℕ → ℕ → Type 0
  IsHighest patterns n p =
      (p < n)
      × ((patterns p).pattern ≢ disabled)
      × ((q : ℕ) → p < q → q < n → (patterns q).pattern ≡ disabled)

  highest_enabled_lem :
      (patterns : ℕ → Setting Color) (n p : ℕ)
      → IsHighest patterns n p
      → highest_enabled patterns n ≡ some (patterns p)
  unfolding highest_enabled IsHighest
  highest_enabled_lem patterns zero p h = absurd (omega (arith, h.0))
  highest_enabled_lem patterns (suc n) p (below, on, above) = elim (Bool-cases (p == n)) [
    | inl top ↦
        let same : p ≡ n = (==_iff p n).0 top in
        rw (ap (λ k. is_disabled (patterns k).pattern) (sym same) ∙ on_lem (patterns p).pattern on)
          (ap (λ k. some (patterns k)) (sym same))
    | inr lower ↦
        let less : p < n = ground arith in
        rw (off_lem (patterns n).pattern (above n less (omega arith)))
          (highest_enabled_lem patterns n p (less, on, λ q k l. above q k (omega arith)))
  ]

  highest_enabled-none :
      (patterns : ℕ → Setting Color) (n : ℕ)
      → ((q : ℕ) → q < n → (patterns q).pattern ≡ disabled)
      → highest_enabled patterns n ≡ none
  unfolding highest_enabled
  highest_enabled-none patterns zero off = refl
  highest_enabled-none patterns (suc n) off =
      rw (off_lem (patterns n).pattern (off n (omega arith)))
        (highest_enabled-none patterns n (λ q l. off q (omega arith)))

  -- After `set` the entry of its priority is the pattern with its colour, and the entries of the other priorities
  -- are as before; then the entry of the highest priority that is enabled is active, and if none is enabled the
  -- active pattern stays what it was.
  pub set_led_lem :
      (prio : LedPriority) (pattern : LedPattern) (rgb : Color) (led : RgbLed Color)
      → let after = set_led prio pattern rgb led in
        (after.patterns (number prio) ≡ record { pattern = pattern; color = rgb })
        × ((q : ℕ) → q ≢ number prio → after.patterns q ≡ led.patterns q)
        × ((p : ℕ)
            → IsHighest after.patterns led_priority_count p
            → after.active_pattern ≡ after.patterns p)
        × (((q : ℕ) → q < led_priority_count → (after.patterns q).pattern ≡ disabled)
            → after.active_pattern ≡ led.active_pattern)
  unfolding set_led
  set_led_lem prio pattern rgb led = (
    let same : (number prio == number prio) ≡ true = ground arith in rw same refl,
    λ q ne. let other : (q == number prio) ≡ false = ground (arith, ne) in rw other refl,
    λ p top.
        rw
          (
            set_led,
            highest_enabled_lem (stored prio pattern rgb led.patterns) led_priority_count p top,
          )
          refl,
    λ off.
        rw
          (
            set_led,
            highest_enabled-none (stored prio pattern rgb led.patterns) led_priority_count off,
          )
          refl,
  )

  -- On a new LED, a pattern that was set and then disabled still shows.
  pub switched_off_stays_lit :
      (black rgb off : Color) (prio : LedPriority) (pattern : LedPattern)
      → is_disabled pattern ≡ false
      → let lit = set_led prio pattern rgb (new_led black) in
        (set_led prio disabled off lit).active_pattern ≡ lit.active_pattern
        × (lit.active_pattern ≡ record { pattern = pattern; color = rgb })
  unfolding set_led highest_enabled number new_led
  switched_off_stays_lit black rgb off idle pattern on = rw on (refl, refl)
  switched_off_stays_lit black rgb off network pattern on = rw on (refl, refl)
  switched_off_stays_lit black rgb off app pattern on = rw on (refl, refl)
  switched_off_stays_lit black rgb off error pattern on = rw on (refl, refl)
