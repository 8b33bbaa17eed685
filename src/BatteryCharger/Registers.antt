-- ===== src/BatteryCharger/Registers.antt =====
-- What the functions do to a chip that keeps its registers: `Device` states how such a chip answers on
-- the bus, where a write stores its bytes from the register on that its first byte names.
use Prim.Native.Nat.{bit_or, bit_and}
use sensor_libs.Prelude.{
  ℕ, zero, suc, ◌*◌, ◌/◌, ◌^◌, ◌<◌, ◌≡◌, refl, ap, ap₂, sym, ◌∙◌, Bool, true, ◌&&◌, some, List, [],
  ◌∷◌, ◌++◌, get_or, take, tabulate, tabulate_ext, arith, ◌==◌, ==_iff,
}
use sensor_libs.BatteryCharger.{
  success, Bus, BusFlags, start, start_stop, repeated_start_stop, Target, after_success,
  read_device, write_device, charger_address, chg_cnfg_00_reg, enable_ship_mode,
}
use sensor_libs.BatteryCharger.Gauge.{
  gauge_address, fg_sd_timer, fg_config, set_shutdown_timer, get_shutdown_threshold,
  get_shutdown_counter, device_shutdown,
}

-- No call fails. `cell s d r i` is byte `i` of what the device `d` keeps from its register `r` on.
pub record Device {S : Type 0} (bus : Bus S) : Type 0 where
  pub cell : S → ℕ → ℕ → ℕ → ℕ
  pub after_init : (s : S) (e d r i : ℕ) → cell (bus.i2c_init s e) d r i ≡ cell s d r i
  pub after_deinit : (s : S) (e d r i : ℕ) → cell (bus.i2c_deinit s e) d r i ≡ cell s d r i
  pub write_succeeds :
      (s : S) (d : ℕ) (f : BusFlags) (bytes : List ℕ) → (bus.i2c_write s d f bytes).0 ≡ true
  pub after_write :
      (s : S) (d : ℕ) (f : BusFlags) (r : ℕ) (bytes : List ℕ) (i : ℕ)
      → cell (bus.i2c_write s d f (r ∷ bytes)).1 d r i ≡ get_or bytes i (cell s d r i)
  pub read_selected :
      (s : S) (d : ℕ) (f g : BusFlags) (r n : ℕ)
      → let selected = (bus.i2c_write s d f (r ∷ [])).1 in
        (bus.i2c_read selected d g n).0 ≡ some (tabulate n (λ i. cell selected d r i))
  pub after_read :
      (s : S) (e : ℕ) (g : BusFlags) (n d r i : ℕ)
      → cell (bus.i2c_read s e g n).1 d r i ≡ cell s d r i

all_below : ℕ → (ℕ → Bool) → Bool
all_below zero p = true
all_below (suc n) p = p n && all_below n p

all_below_lem : (n : ℕ) (p : ℕ → Bool) (x : ℕ) → all_below n p ≡ true → x < n → p x ≡ true
unfolding all_below
all_below_lem zero p x h lt = absurd (omega arith)
all_below_lem (suc n) p x h lt = ground (arith, all_below_lem n p x)

-- A byte of which five bits are kept is below 32, and keeping them again changes nothing.
low_five_bits :
    ((x : ℕ) → x < 256 → bit_and x 0x1f / 32 ≡ 0)
    × ((x : ℕ) → x < 256 → bit_and (bit_and x 0x1f) 0x1f ≡ bit_and x 0x1f)
unfolding all_below
low_five_bits = (
  λ x h. (==_iff _ 0).0 (all_below_lem 256 (λ x. bit_and x 0x1f / 32 == 0) x refl h),
  λ x h.
      (==_iff _ (bit_and x 0x1f)).0
        (all_below_lem 256 (λ x. bit_and (bit_and x 0x1f) 0x1f == bit_and x 0x1f) x refl h),
)

module _ {S : Type 0} (bus : Bus S) (target : Target) (dev : Device bus) where
  abbrev selected : S → ℕ → ℕ → S
  selected s d r = (bus.i2c_write (bus.i2c_init s d) d start (r ∷ [])).1

  selected-cell : (s : S) (d r i : ℕ) → dev.cell (selected s d r) d r i ≡ dev.cell s d r i
  selected-cell s d r i =
      dev.after_write (bus.i2c_init s d) d start r [] i ∙ dev.after_init s d d r i

  -- A read gives the registers from `r` on and changes none of them.
  pub read_device_lem :
      (d r n : ℕ) (s : S)
      → ((read_device bus target d r n s).0 ≡ success (tabulate n (λ i. dev.cell s d r i)))
        × ((i : ℕ) → dev.cell (read_device bus target d r n s).1 d r i ≡ dev.cell s d r i)
  unfolding read_device
  read_device_lem d r n s =
      rw (read_device, dev.read_selected (bus.i2c_init s d) d start repeated_start_stop r n)
        (
          ap success (tabulate_ext n _ _ (λ i k. selected-cell s d r i)),
          λ i. dev.after_deinit _ d d r i ∙ dev.after_read _ d _ n d r i ∙ selected-cell s d r i,
        )

  -- A write stores as many bytes as a pointer has, less one for the register, from `r` on.
  pub write_device_lem :
      (d r : ℕ) (bytes : List ℕ) (n p : ℕ) (s : S)
      → target.pointer_size ≡ suc p
      → ((write_device bus target d (r ∷ bytes) n s).0 ≡ success [])
        × ((i : ℕ)
            → dev.cell (write_device bus target d (r ∷ bytes) n s).1 d r i
              ≡ get_or (take p (bytes ++ target.beyond)) i (dev.cell s d r i))
  unfolding write_device
  write_device_lem d r bytes n p s size =
      rw
        (
          write_device,
          dev.write_succeeds (bus.i2c_init s d) d start_stop
              (take target.pointer_size (r ∷ (bytes ++ target.beyond))),
        )
        (
          refl,
          λ i.
              dev.after_deinit _ d d r i
              ∙ ap
                  (λ k.
                    dev.cell
                      (bus.i2c_write (bus.i2c_init s d) d start_stop
                        (take k (r ∷ (bytes ++ target.beyond)))).1
                      d r i)
                  size
              ∙ dev.after_write (bus.i2c_init s d) d start_stop r (take p (bytes ++ target.beyond))
                  i
              ∙ ap (get_or (take p (bytes ++ target.beyond)) i) (dev.after_init s d d r i),
        )

  -- The bit for the ship mode is set; the registers behind get the bytes that lie behind the buffer.
  pub enable_ship_mode_lem :
      (p : ℕ) (s : S)
      → target.pointer_size ≡ suc p
      → let after = enable_ship_mode bus target s in
        let old = λ (i : ℕ). dev.cell s charger_address chg_cnfg_00_reg i in
        (after.0 ≡ success [])
        × ((i : ℕ)
            → dev.cell after.1 charger_address chg_cnfg_00_reg i
              ≡ get_or (take p (bit_or 0x40 (old 0) ∷ target.beyond)) i (old i))
  unfolding enable_ship_mode after_success write_device
  enable_ship_mode_lem p s size =
      let next = (read_device bus target charger_address chg_cnfg_00_reg 1 s).1 in
      let read = read_device_lem charger_address chg_cnfg_00_reg 1 s in
      let value = bit_or 0x40 (dev.cell s charger_address chg_cnfg_00_reg 0) in
      let wrote = write_device_lem charger_address chg_cnfg_00_reg (value ∷ []) 2 p next size in
      rw (enable_ship_mode, after_success, read.0)
        (wrote.0, λ i. wrote.1 i ∙ ap (get_or (take p (value ∷ target.beyond)) i) (read.1 i))

  -- The timer that the caller gives is not among the bytes: the threshold becomes 0.
  pub set_shutdown_timer_lem :
      (timer p : ℕ) (s : S)
      → target.pointer_size ≡ suc p
      → let after = set_shutdown_timer bus target timer s in
        let old = λ (i : ℕ). dev.cell s gauge_address fg_sd_timer i in
        (after.0 ≡ success [])
        × ((i : ℕ)
            → dev.cell after.1 gauge_address fg_sd_timer i
              ≡ get_or (take p (old 0 ∷ bit_and (old 1) 0x1f ∷ target.beyond)) i (old i))
  unfolding set_shutdown_timer after_success write_device
  set_shutdown_timer_lem timer p s size =
      let next = (read_device bus target gauge_address fg_sd_timer 2 s).1 in
      let read = read_device_lem gauge_address fg_sd_timer 2 s in
      let low = dev.cell s gauge_address fg_sd_timer 0 in
      let high = bit_and (dev.cell s gauge_address fg_sd_timer 1) 0x1f in
      let wrote = write_device_lem gauge_address fg_sd_timer (low ∷ high ∷ []) 2 p next size in
      rw (set_shutdown_timer, after_success, read.0)
        (wrote.0, λ i. wrote.1 i ∙ ap (get_or (take p (low ∷ high ∷ target.beyond)) i) (read.1 i))

  get_shutdown_threshold_lem :
      (s : S)
      → (get_shutdown_threshold bus target s).0 ≡ dev.cell s gauge_address fg_sd_timer 1 / 32
  unfolding get_shutdown_threshold
  get_shutdown_threshold_lem s =
      rw (get_shutdown_threshold, (read_device_lem gauge_address fg_sd_timer 2 s).0) refl

  get_shutdown_counter_lem :
      (s : S)
      → (get_shutdown_counter bus target s).0
        ≡ bit_or
            (bit_and (dev.cell s gauge_address fg_sd_timer 1) 0x1f * 2 ^ 8)
            (dev.cell s gauge_address fg_sd_timer 0)
  unfolding get_shutdown_counter
  get_shutdown_counter_lem s =
      rw (get_shutdown_counter, (read_device_lem gauge_address fg_sd_timer 2 s).0) refl

  module _ (q : ℕ) (size : target.pointer_size ≡ suc (suc (suc q))) where
    -- On a chip that keeps its registers, on a bus whose calls do not fail, and a target whose pointers have at least
    -- three bytes, whatever timer is given, `set_shutdown_timer` makes the threshold that is read back 0, and keeps the counter, if
    -- the registers are bytes.
    pub set_shutdown_timer-get_shutdown :
        (timer : ℕ) (s : S)
        → ((r i : ℕ) → dev.cell s gauge_address r i < 256)
        → let after = (set_shutdown_timer bus target timer s).1 in
          ((get_shutdown_threshold bus target after).0 ≡ 0)
          × ((get_shutdown_counter bus target after).0 ≡ (get_shutdown_counter bus target s).0)
    set_shutdown_timer-get_shutdown timer s bytes =
        let set = set_shutdown_timer_lem timer (suc (suc q)) s size in
        let after = (set_shutdown_timer bus target timer s).1 in
        let h = dev.cell s gauge_address fg_sd_timer 1 in
        (
          get_shutdown_threshold_lem after
              ∙ ap (λ x. x / 32) (set.1 1)
              ∙ low_five_bits.0 h (bytes fg_sd_timer 1),
          get_shutdown_counter_lem after
              ∙ ap₂ (λ x y. bit_or (bit_and x 0x1f * 2 ^ 8) y) (set.1 1) (set.1 0)
              ∙ ap (λ x. bit_or (x * 2 ^ 8) (dev.cell s gauge_address fg_sd_timer 0))
                  (low_five_bits.1 h (bytes fg_sd_timer 1))
              ∙ sym (get_shutdown_counter_lem s),
        )

  -- The bit that shuts the device down is set in the low byte, and the high byte is kept.
  pub device_shutdown_lem :
      (p : ℕ) (s : S)
      → target.pointer_size ≡ suc p
      → let after = device_shutdown bus target s in
        let old = dev.cell s gauge_address fg_config in
        (after.0 ≡ success [])
        × ((i : ℕ)
            → dev.cell after.1 gauge_address fg_config i
              ≡ get_or (take p (bit_or 0x80 (old 0) ∷ old 1 ∷ target.beyond)) i (old i))
  unfolding device_shutdown after_success
  device_shutdown_lem p s size =
      let next = (read_device bus target gauge_address fg_config 2 s).1 in
      let read = read_device_lem gauge_address fg_config 2 s in
      let low = bit_or 0x80 (dev.cell s gauge_address fg_config 0) in
      let high = dev.cell s gauge_address fg_config 1 in
      let wrote = write_device_lem gauge_address fg_config (low ∷ high ∷ []) 2 p next size in
      let last =
        read_device_lem gauge_address fg_config 3
          (write_device bus target gauge_address (fg_config ∷ low ∷ high ∷ []) 2 next).1 in
      rw (device_shutdown, after_success, read.0, wrote.0, last.0)
        (
          refl,
          λ i.
              last.1 i ∙ wrote.1 i ∙ ap (get_or (take p (low ∷ high ∷ target.beyond)) i) (read.1 i),
        )
