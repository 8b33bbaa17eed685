-- ===== src/HttpRequest/Unescapes.antt =====
-- lib_http/http_request.cpp: the escapes of a text and the bytes that they write.
use sensor_libs.Prelude.{
  ℕ, ◌+◌, ◌*◌, ◌%◌, ◌<◌, ◌≤◌, ◌≡◌, ◌⊎◌, sym, ap, ◌∙◌, subst, Bool, true, false, ◌&&◌, List, [], ◌∷◌,
  length, get_or, ◌==◌, arith, Bool-cases, inl, inr,
}
use sensor_libs.HttpRequest.{is_xdigit, digit_value, escaped_byte}

-- The character `c` is the hexadecimal digit of the value `v`.
abbrev pub Hex : ℕ → ℕ → Type 0
Hex c v =
    ((v < 10) × (c ≡ b'0' + v))
    ⊎ (((10 ≤ v) × (v < 16) × (c + 10 ≡ b'A' + v)) ⊎ ((10 ≤ v) × (v < 16) × (c + 10 ≡ b'a' + v)))

-- The text begins with `%` and two digits.
abbrev pub StartsEscape : List ℕ → Type 0
StartsEscape text =
    (hi lo v w : ℕ) × (rest : List ℕ) × (text ≡ b'%' ∷ hi ∷ lo ∷ rest) × Hex hi v × Hex lo w

-- The second list is the text of the first with its escapes replaced, from left to right.
pub data Unescapes : List ℕ → List ℕ → Type 0 where
  empty : Unescapes [] []
  escape :
      (hi lo v w : ℕ) (text bytes : List ℕ)
      → Hex hi v
      → Hex lo w
      → Unescapes text bytes
      → Unescapes (b'%' ∷ hi ∷ lo ∷ text) ((16 * v + w) ∷ bytes)
  plain :
      (c : ℕ) (text bytes : List ℕ)
      → ¬ StartsEscape (c ∷ text)
      → Unescapes text bytes
      → Unescapes (c ∷ text) (c ∷ bytes)

pub xdigit-Hex : (c : ℕ) → is_xdigit c ≡ true → Hex c (digit_value c)
xdigit-Hex c h = ground arith

pub Hex-xdigit : (c v : ℕ) → Hex c v → (is_xdigit c ≡ true) × (digit_value c ≡ v)
Hex-xdigit c v h = (ground arith, ground arith)

pub escaped_byte-Hex : (d e v w : ℕ) → Hex d v → Hex e w → escaped_byte d e ≡ 16 * v + w
escaped_byte-Hex d e v w h g =
    let a = Hex-xdigit d v h in
    let b = Hex-xdigit e w g in
    ap (λ x. (16 * x + digit_value e) % 256) a.1 ∙ ap (λ x. (16 * v + x) % 256) b.1 ∙ omega arith

abbrev pub is_escape_of : ℕ → ℕ → ℕ → Bool
is_escape_of c hi lo = (c == b'%') && is_xdigit hi && is_xdigit lo

-- Each escape is its byte, and each other byte stands for itself.
unfoldable pub unescape : List ℕ → List ℕ
unescape [] = []
unescape (c ∷ []) = c ∷ []
unescape (c ∷ d ∷ []) = c ∷ d ∷ []
unescape (c ∷ d ∷ e ∷ cs) = elim (is_escape_of c d e) [
  | true ↦ escaped_byte d e ∷ unescape cs
  | false ↦ c ∷ unescape (d ∷ e ∷ cs)
]

no_escape :
    (c d e : ℕ) (text : List ℕ) → is_escape_of c d e ≡ false → ¬ StartsEscape (c ∷ d ∷ e ∷ text)
no_escape c d e text h (hi, lo, v, w, rest, same, a, b) =
    let first = ap (λ xs. get_or xs 0 0) same in
    let second = ap (λ xs. get_or xs 1 0) same in
    let third = ap (λ xs. get_or xs 2 0) same in
    ground (arith, first, second, third, (Hex-xdigit hi v a).0, (Hex-xdigit lo w b).0)

too_short : (text : List ℕ) → length text < 3 → ¬ StartsEscape text
too_short text h (hi, lo, v, w, rest, same, a, b) = omega (arith, ap length same)

pub unescape-Unescapes : (text : List ℕ) → Unescapes text (unescape text)
unfolding unescape
unescape-Unescapes [] = Unescapes.empty
unescape-Unescapes (c ∷ []) = plain c [] [] (too_short (c ∷ []) (omega arith)) Unescapes.empty
unescape-Unescapes (c ∷ d ∷ []) =
    plain c (d ∷ []) (d ∷ []) (too_short (c ∷ d ∷ []) (omega arith))
      (plain d [] [] (too_short (d ∷ []) (omega arith)) Unescapes.empty)
unescape-Unescapes (c ∷ d ∷ e ∷ text) = elim (Bool-cases (is_escape_of c d e)) [
  | inl found ↦
      let first : b'%' ≡ c = ground arith in
      let hd = xdigit-Hex d (ground arith) in
      let he = xdigit-Hex e (ground arith) in
      let byte = sym (escaped_byte-Hex d e (digit_value d) (digit_value e) hd he) in
      rw (unescape, found)
        (subst (λ x. Unescapes (x ∷ d ∷ e ∷ text) (escaped_byte d e ∷ unescape text)) first
          (subst (λ x. Unescapes (b'%' ∷ d ∷ e ∷ text) (x ∷ unescape text)) byte
            (escape d e (digit_value d) (digit_value e) text (unescape text) hd he
              (unescape-Unescapes text))))
  | inr none_found ↦
      rw (unescape, none_found)
        (plain c (d ∷ e ∷ text) (unescape (d ∷ e ∷ text)) (no_escape c d e text none_found)
          (unescape-Unescapes (d ∷ e ∷ text)))
]
