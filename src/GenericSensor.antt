-- ===== src/GenericSensor.antt =====
-- lib_util/generic_sensor.h: the settings of a sensor, and the test of a number against one of them.
mod Tests
use sensor_libs.Prelude.{
  ℕ, ◌<◌, ◌≤◌, ◌≡◌, ◌≢◌, ◌↔◌, ◌⊎◌, inl, inr, refl, Bool, true, false, ◌||◌, List, [], ◌∷◌, ◌==◌,
  ==_iff, arith,
}

-- An `int`: `negsuc n` is -(n + 1).
pub data ℤ : Type 0 where
  pos : ℕ → ℤ
  negsuc : ℕ → ℤ

-- An enum with its trait: the enumerators but the one that marks an invalid value, which is -1 in
-- each of them, and the array `valid` of `EnumValuesTrait`.
pub record EnumValues : Type 0 where
  pub declared : List ℕ
  pub valid : List ℕ

abbrev pub pres_power_mode : EnumValues
pres_power_mode = record { declared = 0 ∷ 1 ∷ 3 ∷ []; valid = 0 ∷ 1 ∷ 3 ∷ [] }

abbrev pub acc_operating_mode : EnumValues
acc_operating_mode = record { declared = 0 ∷ 1 ∷ 2 ∷ 3 ∷ []; valid = 0 ∷ 1 ∷ 2 ∷ 3 ∷ [] }

abbrev pub acc_bandwidth : EnumValues
acc_bandwidth = record { declared = 0 ∷ 1 ∷ 2 ∷ 3 ∷ 4 ∷ []; valid = 0 ∷ 1 ∷ 2 ∷ 3 ∷ 4 ∷ [] }

abbrev pub acc_instant_on_th_mode : EnumValues
acc_instant_on_th_mode = record { declared = 0 ∷ 1 ∷ []; valid = 0 ∷ 1 ∷ [] }

abbrev pub acc_odr : EnumValues
acc_odr = record { declared = 0 ∷ 1 ∷ 2 ∷ 3 ∷ 4 ∷ []; valid = 0 ∷ 1 ∷ 2 ∷ 3 ∷ 4 ∷ [] }

abbrev pub acc_lr_odr : EnumValues
acc_lr_odr = record {
  declared = 0 ∷ 1 ∷ 2 ∷ 3 ∷ 4 ∷ 5 ∷ 6 ∷ 7 ∷ 8 ∷ 9 ∷ 10 ∷ 11 ∷ 12 ∷ 13 ∷ 14 ∷ [];
  valid = 0 ∷ 1 ∷ 2 ∷ 3 ∷ 4 ∷ 5 ∷ 6 ∷ 7 ∷ 8 ∷ 9 ∷ 10 ∷ 11 ∷ 12 ∷ 13 ∷ 14 ∷ [];
}

abbrev pub gyr_lr_odr : EnumValues
gyr_lr_odr = record {
  declared = 0 ∷ 1 ∷ 2 ∷ 3 ∷ 4 ∷ 5 ∷ 6 ∷ 7 ∷ 8 ∷ 9 ∷ 10 ∷ 11 ∷ [];
  valid = 0 ∷ 1 ∷ 2 ∷ 3 ∷ 4 ∷ 5 ∷ 6 ∷ 7 ∷ 8 ∷ 9 ∷ 10 ∷ 11 ∷ [];
}

abbrev pub acc_activity_threshold : EnumValues
acc_activity_threshold = record { declared = 0 ∷ 1 ∷ 2 ∷ []; valid = 0 ∷ 1 ∷ 2 ∷ [] }

abbrev pub acc_act_proc_mode : EnumValues
acc_act_proc_mode = record { declared = 0 ∷ 1 ∷ 2 ∷ []; valid = 0 ∷ 1 ∷ 2 ∷ [] }

abbrev pub acc_wake_up_rate : EnumValues
acc_wake_up_rate = record {
  declared = 0 ∷ 1 ∷ 2 ∷ 3 ∷ 4 ∷ 5 ∷ 6 ∷ 7 ∷ [];
  valid = 0 ∷ 1 ∷ 2 ∷ 3 ∷ 4 ∷ 5 ∷ 6 ∷ 7 ∷ [];
}

abbrev pub mag_operating_mode : EnumValues
mag_operating_mode = record { declared = 0 ∷ 1 ∷ 2 ∷ []; valid = 0 ∷ 1 ∷ 2 ∷ [] }

abbrev pub mag_scale_range : EnumValues
mag_scale_range = record { declared = 4 ∷ 8 ∷ 12 ∷ 16 ∷ []; valid = 4 ∷ 8 ∷ 12 ∷ 16 ∷ [] }

abbrev pub acc_scale_range : EnumValues
acc_scale_range = record {
  declared = 2 ∷ 4 ∷ 8 ∷ 16 ∷ 30 ∷ 32 ∷ [];
  valid = 2 ∷ 4 ∷ 8 ∷ 16 ∷ 30 ∷ 32 ∷ [];
}

abbrev pub gyr_scale_range : EnumValues
gyr_scale_range = record {
  declared = 16 ∷ 31 ∷ 62 ∷ 125 ∷ 250 ∷ 500 ∷ 1000 ∷ 2000 ∷ 4000 ∷ [];
  valid = 250 ∷ 500 ∷ 1000 ∷ 2000 ∷ 4000 ∷ [];
}

abbrev pub sample_rate : EnumValues
sample_rate = record {
  declared = 10 ∷ 100 ∷ 200 ∷ 500 ∷ 1000 ∷ [];
  valid = 10 ∷ 100 ∷ 200 ∷ 500 ∷ 1000 ∷ [];
}

-- The enums of the file.
pub data Setting : Type 0 where
  of_pres_power_mode : Setting
  of_acc_operating_mode : Setting
  of_acc_bandwidth : Setting
  of_acc_instant_on_th_mode : Setting
  of_acc_odr : Setting
  of_acc_lr_odr : Setting
  of_gyr_lr_odr : Setting
  of_acc_activity_threshold : Setting
  of_acc_act_proc_mode : Setting
  of_acc_wake_up_rate : Setting
  of_mag_operating_mode : Setting
  of_mag_scale_range : Setting
  of_acc_scale_range : Setting
  of_gyr_scale_range : Setting
  of_sample_rate : Setting

abbrev pub values : Setting → EnumValues
values of_pres_power_mode = pres_power_mode
values of_acc_operating_mode = acc_operating_mode
values of_acc_bandwidth = acc_bandwidth
values of_acc_instant_on_th_mode = acc_instant_on_th_mode
values of_acc_odr = acc_odr
values of_acc_lr_odr = acc_lr_odr
values of_gyr_lr_odr = gyr_lr_odr
values of_acc_activity_threshold = acc_activity_threshold
values of_acc_act_proc_mode = acc_act_proc_mode
values of_acc_wake_up_rate = acc_wake_up_rate
values of_mag_operating_mode = mag_operating_mode
values of_mag_scale_range = mag_scale_range
values of_acc_scale_range = acc_scale_range
values of_gyr_scale_range = gyr_scale_range
values of_sample_rate = sample_rate

-- `value == static_cast<int> (e_val)`.
abbrev pub int_eq : ℤ → ℕ → Bool
int_eq (pos n) e_val = n == e_val
int_eq (negsuc n) e_val = false

-- `find_if` over the array, and the comparison with its end.
pub find_value : ℤ → List ℕ → Bool
find_value value [] = false
find_value value (e_val ∷ rest) = int_eq value e_val || find_value value rest

pub is_valid_enum_value : Setting → ℤ → Bool
is_valid_enum_value s value = find_value value (values s).valid

abbrev pub OneOf : ℤ → List ℕ → Type 0
OneOf value [] = ⊥
OneOf value (e_val ∷ rest) = (value ≡ pos e_val) ⊎ OneOf value rest

negsuc-ne-pos : {n k : ℕ} → negsuc n ≡ pos k → ⊥
negsuc-ne-pos e = cc

find_value_iff : (value : ℤ) (xs : List ℕ) → (find_value value xs ≡ true) ↔ OneOf value xs
unfolding find_value
find_value_iff value [] = ((λ h. cc), λ h. absurd h)
find_value_iff (negsuc n) (x ∷ xs) =
    let ih = find_value_iff (negsuc n) xs in
    ((λ h. inr (ih.0 h)), λ h. elim h [ inl e ↦ absurd (negsuc-ne-pos e) | inr r ↦ ih.1 r ])
find_value_iff (pos n) (x ∷ xs) = (
  (λ h. ground (arith, find_value_iff (pos n) xs)),
  λ h. ground (arith, find_value_iff (pos n) xs),
)

-- The enumerators of the gyroscope's scale range that its array leaves out.
abbrev pub Omitted : Setting → ℤ → Type 0
Omitted of_gyr_scale_range value = OneOf value (16 ∷ 31 ∷ 62 ∷ 125 ∷ [])
Omitted _ value = ⊥

-- `is_valid_enum_value` accepts just the enumerators that the enum declares, without the marker of an
-- invalid value, except that it refuses the ranges 16, 31, 62 and 125 of the gyroscope.
is_valid_iff :
    (s : Setting) (value : ℤ)
    → (is_valid_enum_value s value ≡ true) ↔ (OneOf value (values s).declared × ¬ Omitted s value)
unfolding is_valid_enum_value
is_valid_iff of_gyr_scale_range value =
    let iff = find_value_iff value gyr_scale_range.valid in
    (
      (λ h. (inr (inr (inr (inr (iff.0 h)))), λ z. ground (arith, iff.0 h))),
      λ h. iff.1 (elim h.0 [
        | inl a ↦ absurd (h.1 (inl a))
        | inr (inl a) ↦ absurd (h.1 (inr (inl a)))
        | inr (inr (inl a)) ↦ absurd (h.1 (inr (inr (inl a))))
        | inr (inr (inr (inl a))) ↦ absurd (h.1 (inr (inr (inr (inl a)))))
        | inr (inr (inr (inr r))) ↦ r
      ]),
    )
is_valid_iff of_pres_power_mode value =
    let iff = find_value_iff value pres_power_mode.valid in
    ((λ h. (iff.0 h, λ z. z)), λ h. iff.1 h.0)
is_valid_iff s value =
    let iff = find_value_iff value (values s).valid in ((λ h. (iff.0 h, λ z. z)), λ h. iff.1 h.0)
