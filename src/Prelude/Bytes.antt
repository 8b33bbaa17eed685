-- ===== src/Prelude/Bytes.antt =====
-- Unsigned integers in memory, little-endian, as `memcpy` and pointer casts read and write them.
use native.Mathlib.Nat.{pow-suc}
use sensor_libs.Prelude.{
  ℕ, zero, suc, ◌+◌, ◌*◌, ◌/◌, ◌%◌, ◌^◌, ◌<◌, ◌≡◌, refl, ap, List, [], ◌∷◌, length, arith,
}

-- The `n` lowest bytes of a number.
abbrev pub le : ℕ → ℕ → List ℕ
le zero v = []
le (suc n) v = (v % 256) ∷ le n (v / 256)

abbrev pub from_le : List ℕ → ℕ
from_le [] = 0
from_le (b ∷ bs) = b + 256 * from_le bs

pub length-le : (n v : ℕ) → length (le n v) ≡ n
length-le zero v = refl
length-le (suc n) v = ap suc (length-le n (v / 256))

pub from_le-le : (n v : ℕ) → v < 256 ^ n → from_le (le n v) ≡ v
from_le-le zero v h = (omega arith)
from_le-le (suc n) v h =
    (let small : v / 256 < 256 ^ n = bound in omega (arith, from_le-le n (v / 256) small))
  where
    bound : v / 256 < 256 ^ n
    bound = let e : 256 ^ suc n ≡ 256 ^ n * 256 = pow-suc 256 n in omega (arith, e)
