-- ===== src/HttpRequest/Escapes.antt =====
-- lib_http/http_request.cpp: `decode_uri_escape_sequences` in place.
use sensor_libs.Prelude.{
  ℕ, zero, suc, ◌+◌, ◌<◌, ◌≡◌, refl, sym, ap, ◌∙◌, true, false, some, List, [], ◌∷◌, ◌++◌, length,
  get_or, set, take, ltb, arith, Bool-cases, inl, inr, length-append, append_assoc, append-nil,
  get_or-append_right,
}
use sensor_libs.HttpRequest.{
  digit_value, escaped_byte, is_escape, decode_step, decode_loop, decode_uri_escape_sequences,
}
use sensor_libs.HttpRequest.Unescapes.{is_escape_of, unescape, Unescapes, unescape-Unescapes}

set-append_right :
    (xs ys : List ℕ) (i n v : ℕ) → n ≡ length xs + i → set (xs ++ ys) n v ≡ xs ++ set ys i v
set-append_right [] ys i n v e = ap (λ k. set ys k v) (omega (arith, e))
set-append_right (x ∷ xs) ys i zero v e = absurd (omega arith)
set-append_right (x ∷ xs) ys i (suc n) v e =
    ap (λ zs. x ∷ zs) (set-append_right xs ys i n v (omega arith))

get_or-append_at :
    (xs ys : List ℕ) (i n : ℕ) → n ≡ length xs + i → get_or (xs ++ ys) n 0 ≡ get_or ys i 0
get_or-append_at xs ys i n e = ap (λ k. get_or (xs ++ ys) k 0) e ∙ get_or-append_right xs ys i 0

-- A byte written where the read bytes begin.
written :
    (mid : List ℕ) (x v : ℕ) (xs cs : List ℕ)
    → (mid' : List ℕ) × (set (mid ++ (x ∷ (xs ++ cs))) 0 v ≡ v ∷ (mid' ++ cs))
      × (length mid' ≡ length mid + length xs)
written [] x v xs cs = (xs, refl, omega arith)
written (m ∷ mid) x v xs cs = (
  mid ++ (x ∷ xs),
  ap (λ zs. v ∷ zs) (sym (append_assoc mid (x ∷ xs) cs)),
  omega (arith, length-append mid (x ∷ xs)),
)

-- The bytes that are written, those that are read and free, and those to read.
record Split (bytes out mid cs : List ℕ) (r n : ℕ) : Type 0 where
  parts : bytes ≡ out ++ (mid ++ cs)
  reads : r ≡ length out + length mid
  writes : n ≡ length out

read_at :
    {bytes out mid cs : List ℕ} {r n : ℕ} (i : ℕ)
    → Split bytes out mid cs r n
    → get_or bytes (r + i) 0 ≡ get_or cs i 0
read_at {out = out} {mid} {cs} {r} i s =
    ap (λ bs. get_or bs (r + i) 0) (s.parts ∙ sym (append_assoc out mid cs))
    ∙ get_or-append_at (out ++ mid) cs i (r + i) (omega (arith, s.reads, length-append out mid))

set_read :
    {bytes out mid cs : List ℕ} {r n : ℕ} (i v : ℕ)
    → Split bytes out mid cs r n
    → Split (set bytes (r + i) v) out mid (set cs i v) r n
set_read {out = out} {mid} {cs} {r} i v s = record {
  parts =
      ap (λ bs. set bs (r + i) v) (s.parts ∙ sym (append_assoc out mid cs))
      ∙ set-append_right (out ++ mid) cs i (r + i) v (omega (arith, s.reads, length-append out mid))
      ∙ append_assoc out mid (set cs i v);
  reads = s.reads;
  writes = s.writes;
}

-- A byte is written for the bytes that were read.
advance :
    {bytes out mid : List ℕ} {r n : ℕ} (x v : ℕ) (xs cs : List ℕ)
    → Split bytes out mid (x ∷ (xs ++ cs)) r n
    → (mid' : List ℕ) × Split
        (set bytes n v)
        (out ++ (v ∷ []))
        mid'
        cs
        (r + suc (length xs))
        (n + 1)
advance {bytes} {out} {mid} {r} {n} x v xs cs s =
    let (mid', e, l) = written mid x v xs cs in
    (
      mid',
      record {
        parts =
            ap (λ bs. set bs n v) s.parts
            ∙ set-append_right out (mid ++ (x ∷ (xs ++ cs))) 0 n v (omega (arith, s.writes))
            ∙ ap (λ zs. out ++ zs) e
            ∙ sym (append_assoc out (v ∷ []) (mid' ++ cs));
        reads = omega (arith, s.reads, l, length-append out (v ∷ []));
        writes = omega (arith, s.writes, length-append out (v ∷ []));
      },
    )

is_escape_at :
    {bytes out mid cs : List ℕ} {r n : ℕ}
    → Split bytes out mid cs r n
    → is_escape bytes r ≡ is_escape_of (get_or cs 0 0) (get_or cs 1 0) (get_or cs 2 0)
unfolding is_escape
is_escape_at {bytes = bytes} {r = r} s =
    let at_0 : get_or bytes r 0 ≡ get_or bytes (r + 0) 0 =
      ap (λ k. get_or bytes k 0) (omega arith) in
    ground (arith, at_0, read_at 0 s, read_at 1 s, read_at 2 s)

literal_step :
    {bytes out mid : List ℕ} {r n : ℕ} (c : ℕ) (cs : List ℕ)
    → Split bytes out mid (c ∷ cs) r n
    → is_escape bytes r ≡ false
    → (bytes' mid' : List ℕ) × (decode_step bytes r n ≡ (bytes', r + 1))
      × Split bytes' (out ++ (c ∷ [])) mid' cs (r + 1) (n + 1)
unfolding decode_step
literal_step {bytes} {out} {mid} {r} {n} c cs s plain =
    let (mid', s') = advance c c [] cs s in
    let at_0 : get_or bytes r 0 ≡ c = ap (λ k. get_or bytes k 0) (omega arith) ∙ read_at 0 s in
    (set bytes n c, mid', rw (decode_step, plain, at_0) refl, s')

escape_step :
    {bytes out mid : List ℕ} {r n : ℕ} (c d e : ℕ) (cs : List ℕ)
    → Split bytes out mid (c ∷ d ∷ e ∷ cs) r n
    → is_escape bytes r ≡ true
    → (bytes' mid' : List ℕ) × (decode_step bytes r n ≡ (bytes', r + 3))
      × Split bytes' (out ++ (escaped_byte d e ∷ [])) mid' cs (r + 3) (n + 1)
unfolding decode_step
escape_step {bytes} {out} {mid} {r} {n} c d e cs s escape =
    let s1 = set_read 1 (digit_value d) s in
    let s2 = set_read 2 (digit_value e) s1 in
    let (mid', s') = advance c (escaped_byte d e) (digit_value d ∷ digit_value e ∷ []) cs s2 in
    (
      set (set (set bytes (r + 1) (digit_value d)) (r + 2) (digit_value e)) n (escaped_byte d e),
      mid',
      rw (decode_step, escape, read_at 1 s, read_at 2 s) refl,
      s',
    )

round :
    (fuel : ℕ) (bytes bytes' : List ℕ) (r r' n : ℕ)
    → r < length bytes
    → decode_step bytes r n ≡ (bytes', r')
    → decode_loop (suc fuel) bytes r n ≡ decode_loop fuel bytes' r' (n + 1)
unfolding decode_loop
round fuel bytes bytes' r r' n l e = rw (decode_loop, e) (ground arith)

more :
    {bytes out mid : List ℕ} {r n : ℕ} (c : ℕ) (cs : List ℕ)
    → Split bytes out mid (c ∷ cs) r n
    → r < length bytes
more {bytes} {out} {mid} c cs s = omega (
  arith,
  s.reads,
  ap length s.parts,
  length-append out (mid ++ (c ∷ cs)),
  length-append mid (c ∷ cs),
)

take-append : (xs ys : List ℕ) → take (length xs) (xs ++ ys) ≡ xs
take-append [] ys = refl
take-append (x ∷ xs) ys = ap (λ zs. x ∷ zs) (take-append xs ys)

finish_round :
    {bytes out mid : List ℕ} {r n : ℕ} (fuel : ℕ)
    → Split bytes out mid [] r n
    → decode_loop (suc fuel) bytes r n ≡ some out
unfolding decode_loop
finish_round {bytes} {out} {mid} {r} {n} fuel s =
    let size : ltb r (length bytes) ≡ false =
      ground
        (arith, s.reads, ap length s.parts, length-append out (mid ++ []), length-append mid []) in
    let rest : take n bytes ≡ out =
      ap (λ k. take k bytes) s.writes
      ∙ ap (take (length out)) s.parts
      ∙ take-append out (mid ++ []) in
    rw (decode_loop, size, rest) refl

-- What a round comes to, from what the others do with the bytes left.
abbrev Continues : ℕ → List ℕ → List ℕ → List ℕ → Type 0
Continues fuel out cs result =
    (bytes mid : List ℕ) (r n : ℕ)
    → Split bytes out mid cs r n
    → decode_loop fuel bytes r n ≡ some result

literal_round :
    {bytes out mid : List ℕ} {r n : ℕ} (fuel c : ℕ) (cs tail : List ℕ)
    → Split bytes out mid (c ∷ cs) r n
    → is_escape_of (get_or (c ∷ cs) 0 0) (get_or (c ∷ cs) 1 0) (get_or (c ∷ cs) 2 0) ≡ false
    → Continues fuel (out ++ (c ∷ [])) cs ((out ++ (c ∷ [])) ++ tail)
    → decode_loop (suc fuel) bytes r n ≡ some (out ++ (c ∷ tail))
literal_round {bytes} {out} {mid} {r} {n} fuel c cs tail s plain ih =
    let (bytes', mid', step, s') = literal_step c cs s (is_escape_at s ∙ plain) in
    round fuel bytes bytes' r (r + 1) n (more c cs s) step
    ∙ ih bytes' mid' (r + 1) (n + 1) s'
    ∙ ap some (append_assoc out (c ∷ []) tail)

escape_round :
    {bytes out mid : List ℕ} {r n : ℕ} (fuel c d e : ℕ) (cs tail : List ℕ)
    → Split bytes out mid (c ∷ d ∷ e ∷ cs) r n
    → is_escape_of c d e ≡ true
    → Continues fuel (out ++ (escaped_byte d e ∷ [])) cs ((out ++ (escaped_byte d e ∷ [])) ++ tail)
    → decode_loop (suc fuel) bytes r n ≡ some (out ++ (escaped_byte d e ∷ tail))
escape_round {bytes} {out} {mid} {r} {n} fuel c d e cs tail s escape ih =
    let (bytes', mid', step, s') = escape_step c d e cs s (is_escape_at s ∙ escape) in
    round fuel bytes bytes' r (r + 3) n (more c (d ∷ e ∷ cs) s) step
    ∙ ih bytes' mid' (r + 3) (n + 1) s'
    ∙ ap some (append_assoc out (escaped_byte d e ∷ []) tail)

loop_lem :
    (cs : List ℕ) (fuel : ℕ) (out bytes mid : List ℕ) (r n : ℕ)
    → length cs < fuel
    → Split bytes out mid cs r n
    → decode_loop fuel bytes r n ≡ some (out ++ unescape cs)
unfolding unescape
loop_lem cs zero out bytes mid r n l s = absurd (omega arith)
loop_lem [] (suc fuel) out bytes mid r n l s = finish_round fuel s ∙ ap some (sym (append-nil out))
loop_lem (c ∷ []) (suc fuel) out bytes mid r n l s =
    literal_round fuel c [] [] s (ground arith)
      (λ bs m i j. loop_lem [] fuel (out ++ (c ∷ [])) bs m i j (omega arith))
loop_lem (c ∷ d ∷ []) (suc fuel) out bytes mid r n l s =
    literal_round fuel c (d ∷ []) (d ∷ []) s (ground arith)
      (λ bs m i j. loop_lem (d ∷ []) fuel (out ++ (c ∷ [])) bs m i j (omega arith))
loop_lem (c ∷ d ∷ e ∷ cs) (suc fuel) out bytes mid r n l s =
    elim (Bool-cases (is_escape_of c d e)) [
      | inl escape ↦
          rw (unescape, escape)
            (escape_round fuel c d e cs (unescape cs) s escape (λ bs m i j.
              loop_lem cs fuel (out ++ (escaped_byte d e ∷ [])) bs m i j (omega arith)))
      | inr plain ↦
          rw (unescape, plain)
            (literal_round fuel c (d ∷ e ∷ cs) (unescape (d ∷ e ∷ cs)) s plain
              (λ bs m i j. loop_lem (d ∷ e ∷ cs) fuel (out ++ (c ∷ [])) bs m i j (omega arith)))
    ]

pub decode-unescape : (bytes : List ℕ) → decode_uri_escape_sequences bytes ≡ some (unescape bytes)
unfolding decode_uri_escape_sequences
decode-unescape bytes =
    loop_lem bytes (suc (length bytes)) [] bytes [] 0 0 (omega arith)
      (record { parts = refl; reads = refl; writes = refl })

-- Every string is decoded in place, and what it becomes is the string with each `%` and two hexadecimal digits
-- replaced by the byte that they write, the first digit times 16 and the second, from left to right, and each
-- other byte kept.
pub decode_lem :
    (bytes : List ℕ)
    → (decoded : List ℕ) × (decode_uri_escape_sequences bytes ≡ some decoded)
      × Unescapes bytes decoded
decode_lem bytes = (unescape bytes, decode-unescape bytes, unescape-Unescapes bytes)
