-- ===== src/HttpPayload/Range/Accepts.antt =====
-- Which headers `parse_range_header` accepts.
use sensor_libs.Prelude.{
  ℕ, suc, ◌≤◌, ◌≡◌, true, Option, some, List, [], ◌∷◌, ◌++◌, ◌==◌, if◌then◌else◌,
}
use sensor_libs.HttpPayload.Range.{ptn_bytes, dash, is_digit, first_of, end_of}

-- What the loop does behind the prefix.
last_dash : List ℕ → ℕ → Option ℕ → Option ℕ
last_dash [] i d = d
last_dash (c ∷ cs) i d = last_dash cs (suc i) (if c == dash then some i else d)

first_after : List ℕ → ℕ → Option ℕ → Option ℕ
first_after [] i s = s
first_after (c ∷ cs) i s = first_of s i

-- No dash comes at or behind `i`.
IsBefore : ℕ → Option ℕ → Type 0
IsBefore i d = end_of d ≤ i

module _ (strtol : List ℕ → ℕ) where
  pub IsOpenRange : List ℕ → ℕ → Type 0
  IsOpenRange str n =
      (c : ℕ) × (mid : List ℕ) × (is_digit c ≡ true)
      × (str ≡ ptn_bytes ++ c ∷ (mid ++ dash ∷ []))
      × (n ≡ strtol (c ∷ mid))
