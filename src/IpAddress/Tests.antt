-- ===== src/IpAddress/Tests.antt =====
-- Addresses as text.
use sensor_libs.Prelude.{◌≡◌, refl, ◌++◌, ◌∷◌, [], codes}
use sensor_libs.IpAddress.{
  ip4_to_string, ip4_text, decimal, print_to, ip6_text, two_sectets, hex4, hex_digit,
}

ip4_test : ip4_text 0xc0a80164 ≡ codes "192.168.1.100"
unfolding ip4_text decimal
ip4_test = refl

ip6_test :
    ip6_text (record { w0 = 0x20010db8; w1 = 0; w2 = 0xff; w3 = 0xabcd0001 })
    ≡ codes "2001:0DB8:0000:0000:0000:00FF:ABCD:0001"
unfolding ip6_text two_sectets hex4 hex_digit
ip6_test = refl

-- A buffer that is too small holds the front of the text.
cut_test : ip4_to_string 0xc0a80164 8 ≡ (13, codes "192.168" ++ 0 ∷ [])
unfolding ip4_to_string ip4_text decimal print_to
cut_test = refl
