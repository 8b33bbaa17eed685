-- ===== src/IpAddress.antt =====
-- lib_util/ip_address.h, ip_address.cpp: addresses as text. `snprintf` is modelled for the two formats that
-- the code uses, on the values that it gives them.
use sensor_libs.Prelude.{
  ℕ, ◌+◌, ◌-◌, ◌*◌, ◌/◌, ◌%◌, ◌^◌, List, [], ◌∷◌, ◌++◌, length, take, replicate, blit, ltb, leb,
  if◌then◌else◌,
}
pub mod RoundTrip
pub mod Sectets
mod Tests

-- `%d` for an `unsigned char`: one to three digits.
unfoldable pub decimal : ℕ → List ℕ
decimal n =
    if ltb n 10
    then (b'0' + n) ∷ []
    else (if ltb n 100
        then (b'0' + n / 10) ∷ (b'0' + n % 10) ∷ []
        else (b'0' + n / 100) ∷ (b'0' + n / 10 % 10) ∷ (b'0' + n % 10) ∷ [])

unfoldable pub hex_digit : ℕ → ℕ
hex_digit d = if ltb d 10 then b'0' + d else b'A' + (d - 10)

-- `%04X` for a `uint16_t`.
unfoldable pub hex4 : ℕ → List ℕ
unfolding hex_digit
hex4 w =
    hex_digit (w / 4096)
    ∷ hex_digit (w / 256 % 16)
    ∷ hex_digit (w / 16 % 16)
    ∷ hex_digit (w % 16)
    ∷ []

-- `octet[i]`, an `unsigned char`.
abbrev pub octet : ℕ → ℕ → ℕ
octet ip i = ip / 2 ^ (i * 8) % 2 ^ 8

unfoldable pub ip4_text : ℕ → List ℕ
unfolding decimal
ip4_text ip =
    decimal (octet ip 3)
    ++ b'.' ∷ (decimal (octet ip 2) ++ b'.' ∷ (decimal (octet ip 1) ++ b'.' ∷ decimal (octet ip 0)))

-- `memset` and `snprintf`: the length of the whole text, and the buffer with as much of the text as
-- leaves room for the zero at its end.
unfoldable pub print_to : ℕ → List ℕ → ℕ × List ℕ
print_to dst_length text =
    (length text, blit (replicate dst_length 0) 0 (take (dst_length - 1) text))

unfoldable pub ip4_to_string : ℕ → ℕ → ℕ × List ℕ
unfolding ip4_text print_to
ip4_to_string ip dst_length = print_to dst_length (ip4_text ip)

pub record Ip6 : Type 0 where
  pub w0 : ℕ
  pub w1 : ℕ
  pub w2 : ℕ
  pub w3 : ℕ

-- Two of the eight `sectet`s, the upper half of a word and its lower half.
unfoldable pub two_sectets : ℕ → List ℕ
unfolding hex4
two_sectets w = hex4 (w / 2 ^ 16 % 2 ^ 16) ++ b':' ∷ hex4 (w % 2 ^ 16)

unfoldable pub ip6_text : Ip6 → List ℕ
unfolding two_sectets
ip6_text ip =
    two_sectets ip.w0
    ++ b':' ∷ (two_sectets ip.w1 ++ b':' ∷ (two_sectets ip.w2 ++ b':' ∷ two_sectets ip.w3))

unfoldable pub ip6_to_string : Ip6 → ℕ → ℕ × List ℕ
unfolding ip6_text print_to
ip6_to_string ip dst_length = print_to dst_length (ip6_text ip)
