-- ===== src/IpAddress/Sectets.antt =====
-- The text of a long address reads back as its eight parts.
use Prim.{tt}
use sensor_libs.Prelude.{
  ℕ, ◌+◌, ◌-◌, ◌*◌, ◌/◌, ◌%◌, ◌^◌, ◌≤◌, ◌<◌, ◌≡◌, refl, ap, sym, ◌∙◌, List, [], ◌∷◌, ◌++◌,
  append_assoc, append-nil, length, ltb, ◌==◌, if◌then◌else◌, arith, true, false, Bool-cases, inl,
  inr,
}
use sensor_libs.IpAddress.{hex_digit, hex4, print_to, Ip6, two_sectets, ip6_text, ip6_to_string}
use sensor_libs.IpAddress.RoundTrip.{c_string, c_string-print_to, IsText, append-IsText}

-- Reads numbers in hexadecimal with a colon between them.
pub read_ip6 : List ℕ → ℕ → List ℕ
read_ip6 [] number = number ∷ []
read_ip6 (c ∷ cs) number =
    if c == b':'
    then number ∷ read_ip6 cs 0
    else read_ip6 cs (number * 16 + (if ltb c b'A' then c - b'0' else c - b'A' + 10))

read_hex_digit :
    (d : ℕ) (cs : List ℕ) (number : ℕ)
    → d < 16
    → read_ip6 (hex_digit d ∷ cs) number ≡ read_ip6 cs (number * 16 + d)
unfolding read_ip6 hex_digit
read_hex_digit d cs number small = elim (Bool-cases (ltb d 10)) [
  | inl low ↦
      let digit : (b'0' + d == b':') ≡ false = ground arith in
      let below : ltb (b'0' + d) b'A' ≡ true = ground arith in
      rw (hex_digit, low) (rw (digit, below) (ap (read_ip6 cs) (omega arith)))
  | inr high ↦
      let digit : (b'A' + (d - 10) == b':') ≡ false = ground arith in
      let above : ltb (b'A' + (d - 10)) b'A' ≡ false = ground arith in
      rw (hex_digit, high) (rw (digit, above) (ap (read_ip6 cs) (ground arith)))
]

read_hex4 : (w : ℕ) (cs : List ℕ) → w < 2 ^ 16 → read_ip6 (hex4 w ++ cs) 0 ≡ read_ip6 cs w
unfolding hex4
read_hex4 w cs small =
    read_hex_digit (w / 4096) _ 0 (omega arith)
    ∙ read_hex_digit (w / 256 % 16) _ _ (omega arith)
    ∙ read_hex_digit (w / 16 % 16) _ _ (omega arith)
    ∙ read_hex_digit (w % 16) cs _ (omega arith)
    ∙ ap (read_ip6 cs) (omega arith)

read_colon :
    (w : ℕ) (cs : List ℕ) → w < 2 ^ 16 → read_ip6 (hex4 w ++ b':' ∷ cs) 0 ≡ w ∷ read_ip6 cs 0
unfolding read_ip6
read_colon w cs small = read_hex4 w (b':' ∷ cs) small

read_end : (w : ℕ) → w < 2 ^ 16 → read_ip6 (hex4 w) 0 ≡ w ∷ []
unfolding read_ip6
read_end w small = ap (λ l. read_ip6 l 0) (sym (append-nil (hex4 w))) ∙ read_hex4 w [] small

abbrev upper : ℕ → ℕ
upper w = w / 2 ^ 16 % 2 ^ 16

abbrev lower : ℕ → ℕ
lower w = w % 2 ^ 16

read_two :
    (w : ℕ) (cs : List ℕ)
    → read_ip6 (two_sectets w ++ b':' ∷ cs) 0 ≡ upper w ∷ lower w ∷ read_ip6 cs 0
unfolding two_sectets
read_two w cs =
    ap (λ l. read_ip6 l 0) (append_assoc (hex4 (upper w)) (b':' ∷ hex4 (lower w)) (b':' ∷ cs))
    ∙ read_colon (upper w) (hex4 (lower w) ++ b':' ∷ cs) (omega arith)
    ∙ ap (◌∷◌ (upper w)) (read_colon (lower w) cs (omega arith))

read_last_two : (w : ℕ) → read_ip6 (two_sectets w) 0 ≡ upper w ∷ lower w ∷ []
unfolding two_sectets
read_last_two w =
    read_colon (upper w) (hex4 (lower w)) (omega arith)
    ∙ ap (◌∷◌ (upper w)) (read_end (lower w) (omega arith))

pub sectets : Ip6 → List ℕ
sectets ip =
    upper ip.w0
    ∷ lower ip.w0
    ∷ upper ip.w1
    ∷ lower ip.w1
    ∷ upper ip.w2
    ∷ lower ip.w2
    ∷ upper ip.w3
    ∷ lower ip.w3
    ∷ []

read_ip6-ip6_text : (ip : Ip6) → read_ip6 (ip6_text ip) 0 ≡ sectets ip
unfolding ip6_text sectets
read_ip6-ip6_text ip =
    read_two ip.w0 _
    ∙ ap (λ l. upper ip.w0 ∷ lower ip.w0 ∷ l)
        (read_two ip.w1 _
          ∙ ap (λ l. upper ip.w1 ∷ lower ip.w1 ∷ l)
              (read_two ip.w2 _ ∙ ap (λ l. upper ip.w2 ∷ lower ip.w2 ∷ l) (read_last_two ip.w3)))

hex_digit-pos : (d : ℕ) → 0 < hex_digit d
unfolding hex_digit
hex_digit-pos d = ground arith

hex4-IsText : (w : ℕ) → IsText (hex4 w)
unfolding hex4 IsText
hex4-IsText w = (hex_digit-pos _, (hex_digit-pos _, (hex_digit-pos _, (hex_digit-pos _, tt))))

two_sectets-IsText : (w : ℕ) → IsText (two_sectets w)
unfolding two_sectets IsText
two_sectets-IsText w =
    append-IsText (hex4 _) (b':' ∷ hex4 _) (hex4-IsText _) (omega arith, hex4-IsText _)

ip6_text-IsText : (ip : Ip6) → IsText (ip6_text ip)
unfolding ip6_text IsText
ip6_text-IsText ip =
    let dot = λ (w : ℕ) (cs : List ℕ) (h : IsText cs).
      append-IsText (two_sectets w) (b':' ∷ cs) (two_sectets-IsText w) (omega arith, h) in
    let two = two_sectets ip.w2 ++ b':' ∷ two_sectets ip.w3 in
    let three = two_sectets ip.w1 ++ b':' ∷ two in
    dot ip.w0 three (dot ip.w1 two (dot ip.w2 (two_sectets ip.w3) (two_sectets-IsText ip.w3)))

length-ip6_text : (ip : Ip6) → length (ip6_text ip) ≡ 39
unfolding ip6_text two_sectets hex4
length-ip6_text ip = refl

-- In a buffer of at least 40 bytes the text of an address of four words is whole, the result is its length, 39,
-- and read back as hexadecimal numbers with colons between them it is the halves of the words in order.
pub ip6_to_string_lem :
    (ip : Ip6) (dst_length : ℕ)
    → 40 ≤ dst_length
    → let (rc, dst) = ip6_to_string ip dst_length in
      (read_ip6 (c_string dst) 0 ≡ sectets ip) × (rc ≡ 39)
unfolding ip6_to_string print_to
ip6_to_string_lem ip n room = (
  ap (λ l. read_ip6 l 0)
        (c_string-print_to (ip6_text ip) n (ip6_text-IsText ip) (omega (arith, length-ip6_text ip)))
      ∙ read_ip6-ip6_text ip,
  length-ip6_text ip,
)
