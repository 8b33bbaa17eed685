-- ===== src/HttpPayload/Range.antt =====
-- lib_http/http_payload.cpp, `parse_range_header`: the first byte that a client asks for. `strtol` of the
-- C library is a parameter.
use sensor_libs.Prelude.{
  ℕ, zero, suc, ◌+◌, ◌-◌, ◌≤◌, ◌<◌, ◌≡◌, ◌↔◌, refl, ap, ap₂, sym, ◌∙◌, subst, ◌⊎◌, inl, inr, Bool,
  true, false, ◌&&◌, Option, none, some, List, [], ◌∷◌, ◌++◌, length, length-append, get_or, take,
  drop, slice, codes, ltb, leb, ◌==◌, ==_iff, if◌then◌else◌, arith, Bool-cases, Option-cases,
}
pub mod Accepts

-- `outside` is the test of a character before the first one of the text.
pub data RangeResult : Type 0 where
  start_at : ℕ → RangeResult
  failed outside : RangeResult

abbrev pub ptn_bytes : List ℕ
ptn_bytes = codes "bytes="

abbrev pub dash : ℕ
dash = 45

unfoldable pub is_digit : ℕ → Bool
is_digit c = leb 48 c && leb c 57

-- The indices `pos_s` and `pos_dash`, where `none` is -1.
abbrev pub Positions : Type 0
Positions = Option ℕ × Option ℕ

abbrev pub first_of : Option ℕ → ℕ → Option ℕ
first_of none i = some i
first_of (some s) i = some s

-- One round of the loop; `none` is the early return.
unfoldable pub range_step : ℕ → ℕ → Positions → Option Positions
range_step c i (s, d) =
    if ltb i 6
    then (if c == get_or ptn_bytes i 0 then some (s, d) else none)
    else some (first_of s i, if c == dash then some i else d)

unfoldable pub scan : List ℕ → ℕ → Positions → Option Positions
unfolding range_step
scan [] i p = some p
scan (c ∷ cs) i p = elim (range_step c i p) [ none ↦ none | some q ↦ scan cs (suc i) q ]

-- `pos_dash + 1`.
abbrev pub end_of : Option ℕ → ℕ
end_of none = 0
end_of (some d) = suc d

module _ (strtol : List ℕ → ℕ) where
  unfoldable pub read_start : List ℕ → Positions → RangeResult
  unfolding is_digit
  read_start str (none, d) = outside
  read_start str (some s, d) =
      if is_digit (get_or str s 0)
      then start_at (strtol (slice str s (end_of d - 1 - s)))
      else failed

  unfoldable pub parse_range_header : List ℕ → RangeResult
  unfolding scan read_start
  parse_range_header str = elim (scan str 0 (none, none)) [
    | none ↦ failed
    | some p ↦ if ltb (end_of p.1) (length str) then failed else read_start str p
  ]
