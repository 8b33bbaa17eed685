-- ===== src/IpAddress/RoundTrip.antt =====
-- The texts of addresses read back as the addresses.
use Prim.{Unit, tt}
use sensor_libs.Prelude.{
  ℕ, zero, suc, ◌+◌, ◌-◌, ◌*◌, ◌/◌, ◌%◌, ◌^◌, ◌≤◌, ◌<◌, ◌≡◌, refl, ap, sym, ◌∙◌, List, [], ◌∷◌,
  ◌++◌, append-nil, length, length-append, take-length, replicate, blit, ltb, ◌==◌, if◌then◌else◌,
  arith, false, Bool-cases, inl, inr,
}
use sensor_libs.IpAddress.{decimal, octet, ip4_text, print_to, ip4_to_string}

-- The characters before the first zero.
unfoldable pub c_string : List ℕ → List ℕ
c_string [] = []
c_string (c ∷ cs) = if c == 0 then [] else c ∷ c_string cs

-- Reads numbers in decimal, with a dot between them, as the bytes of an address, the highest first.
pub read_ip4 : List ℕ → ℕ → ℕ → ℕ
read_ip4 [] number ip = ip * 256 + number
read_ip4 (c ∷ cs) number ip =
    if c == b'.'
    then read_ip4 cs 0 (ip * 256 + number)
    else read_ip4 cs (number * 10 + (c - b'0')) ip

read_digit :
    (d : ℕ) (cs : List ℕ) (number ip : ℕ)
    → d < 10
    → read_ip4 ((b'0' + d) ∷ cs) number ip ≡ read_ip4 cs (number * 10 + d) ip
unfolding read_ip4
read_digit d cs number ip small =
    let digit : (b'0' + d == b'.') ≡ false = ground arith in
    rw (read_ip4, digit) (ap (λ k. read_ip4 cs k ip) (omega arith))

read_decimal :
    (n : ℕ) (cs : List ℕ) (ip : ℕ) → n < 256 → read_ip4 (decimal n ++ cs) 0 ip ≡ read_ip4 cs n ip
unfolding decimal
read_decimal n cs ip small = elim (Bool-cases (ltb n 10)) [
  | inl one ↦
      rw (decimal, one)
        (read_digit n cs 0 ip (ground arith) ∙ ap (λ k. read_ip4 cs k ip) (omega arith))
  | inr more ↦ elim (Bool-cases (ltb n 100)) [
    | inl two ↦
        rw (decimal, more, two)
          (read_digit (n / 10) _ 0 ip (ground arith)
            ∙ read_digit (n % 10) cs _ ip (omega arith)
            ∙ ap (λ k. read_ip4 cs k ip) (omega arith))
    | inr three ↦
        rw (decimal, more, three)
          (read_digit (n / 100) _ 0 ip (omega arith)
            ∙ read_digit (n / 10 % 10) _ _ ip (omega arith)
            ∙ read_digit (n % 10) cs _ ip (omega arith)
            ∙ ap (λ k. read_ip4 cs k ip) (omega arith))
  ]
]

read_dot :
    (cs : List ℕ) (number ip : ℕ)
    → read_ip4 (b'.' ∷ cs) number ip ≡ read_ip4 cs 0 (ip * 256 + number)
unfolding read_ip4
read_dot cs number ip = refl

-- The last number of a text.
read_last : (n ip : ℕ) → n < 256 → read_ip4 (decimal n) 0 ip ≡ ip * 256 + n
unfolding read_ip4
read_last n ip small =
    ap (λ l. read_ip4 l 0 ip) (sym (append-nil (decimal n))) ∙ read_decimal n [] ip small

read_part :
    (n : ℕ) (cs : List ℕ) (ip : ℕ)
    → n < 256
    → read_ip4 (decimal n ++ b'.' ∷ cs) 0 ip ≡ read_ip4 cs 0 (ip * 256 + n)
read_part n cs ip small = read_decimal n (b'.' ∷ cs) ip small ∙ read_dot cs n ip

read_ip4-ip4_text : (ip : ℕ) → ip < 2 ^ 32 → read_ip4 (ip4_text ip) 0 0 ≡ ip
unfolding ip4_text
read_ip4-ip4_text ip small =
    read_part (octet ip 3) _ 0 (omega arith)
    ∙ read_part (octet ip 2) _ _ (omega arith)
    ∙ read_part (octet ip 1) _ _ (omega arith)
    ∙ read_last (octet ip 0) _ (omega arith)
    ∙ omega arith

-- No character is the zero that ends a text.
unfoldable pub IsText : List ℕ → Type 0
IsText [] = Unit
IsText (c ∷ cs) = (0 < c) × IsText cs

pub append-IsText : (xs ys : List ℕ) → IsText xs → IsText ys → IsText (xs ++ ys)
unfolding IsText
append-IsText [] ys h k = k
append-IsText (x ∷ xs) ys h k = (h.0, append-IsText xs ys h.1 k)

decimal-IsText : (n : ℕ) → IsText (decimal n) × (length (decimal n) ≤ 3)
unfolding IsText decimal
decimal-IsText n = elim (Bool-cases (ltb n 10)) [
  | inl one ↦ rw (decimal, one) ((omega arith, tt), omega arith)
  | inr more ↦ elim (Bool-cases (ltb n 100)) [
    | inl two ↦ rw (decimal, more, two) ((omega arith, (omega arith, tt)), omega arith)
    | inr three ↦
        rw (decimal, more, three) ((omega arith, (omega arith, (omega arith, tt))), omega arith)
  ]
]

-- A buffer with room for the text and the zero holds it as a string.
c_string-blit :
    (text : List ℕ) (n : ℕ)
    → IsText text
    → length text < n
    → c_string (blit (replicate n 0) 0 text) ≡ text
unfolding c_string IsText
c_string-blit [] zero h room = refl
c_string-blit [] (suc n) h room = refl
c_string-blit (c ∷ cs) zero h room = absurd (omega arith)
c_string-blit (c ∷ cs) (suc n) h room =
    let some_char : (c == 0) ≡ false = ground (arith, h.0) in
    rw some_char (ap (◌∷◌ c) (c_string-blit cs n h.1 (omega arith)))

pub c_string-print_to :
    (text : List ℕ) (n : ℕ) → IsText text → length text < n → c_string (print_to n text).1 ≡ text
unfolding print_to
c_string-print_to text n h room =
    ap (λ l. c_string (blit (replicate n 0) 0 l)) (take-length (n - 1) text (omega arith))
    ∙ c_string-blit text n h room

ip4_text-IsText : (ip : ℕ) → IsText (ip4_text ip) × (length (ip4_text ip) ≤ 15)
unfolding ip4_text IsText
ip4_text-IsText ip =
    let part = λ (i : ℕ). decimal-IsText (octet ip i) in
    let dot = λ (n : ℕ) (cs : List ℕ) (h : IsText cs).
      append-IsText (decimal n) (b'.' ∷ cs) (decimal-IsText n).0 (omega arith, h) in
    let two = decimal (octet ip 1) ++ b'.' ∷ decimal (octet ip 0) in
    let three = decimal (octet ip 2) ++ b'.' ∷ two in
    (
      dot (octet ip 3) three (dot (octet ip 2) two (dot (octet ip 1) _ (part 0).0)),
      omega (
        arith,
        part 0,
        part 1,
        part 2,
        part 3,
        length-append (decimal (octet ip 3)) (b'.' ∷ three),
        length-append (decimal (octet ip 2)) (b'.' ∷ two),
        length-append (decimal (octet ip 1)) (b'.' ∷ decimal (octet ip 0)),
      ),
    )

-- In a buffer of at least 16 bytes the text of a 32-bit address is whole, the result is its length, and
-- read back as four decimal bytes with dots between them it is the address.
pub ip4_to_string_lem :
    (ip dst_length : ℕ)
    → ip < 2 ^ 32
    → 16 ≤ dst_length
    → let (rc, dst) = ip4_to_string ip dst_length in
      (read_ip4 (c_string dst) 0 0 ≡ ip) × (rc ≡ length (c_string dst)) × (rc < 16)
unfolding ip4_to_string print_to
ip4_to_string_lem ip n small room =
    let text = ip4_text-IsText ip in
    let whole = c_string-print_to (ip4_text ip) n text.0 (omega (arith, text.1)) in
    (
      ap (λ l. read_ip4 l 0 0) whole ∙ read_ip4-ip4_text ip small,
      ap length (sym whole),
      omega (arith, text.1),
    )
