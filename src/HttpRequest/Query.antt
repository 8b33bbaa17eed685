-- ===== src/HttpRequest/Query.antt =====
-- lib_http/http_request.cpp: the pairs of a query that was written with escapes.
use sensor_libs.Prelude.{
  ℕ, ◌+◌, ◌*◌, ◌≢◌, ◌≡◌, refl, sym, ap, ap₂, ◌∙◌, true, false, some, List, [], ◌∷◌, ◌++◌, ◌==◌,
  arith, append_assoc, append-nil,
}
use sensor_libs.HttpRequest.{
  KeyValuePair, escaped_byte, decode_pair, QueryState, push_pair, query_step, query_loop,
  parse_query,
}
use sensor_libs.HttpRequest.Unescapes.{Hex, Hex-xdigit, escaped_byte-Hex, is_escape_of, unescape}
use sensor_libs.HttpRequest.Escapes.{decode-unescape}

-- The second text writes the first: each byte is written as it is, unless it is a mark of the query,
-- or as an escape.
pub data Encodes : List ℕ → List ℕ → Type 0 where
  empty : Encodes [] []
  plain :
      (c : ℕ) (bytes text : List ℕ)
      → c ≢ b'%'
      → c ≢ b'='
      → c ≢ b'&'
      → Encodes bytes text
      → Encodes (c ∷ bytes) (c ∷ text)
  escape :
      (p d e v w byte : ℕ) (bytes text : List ℕ)
      → p ≡ b'%'
      → byte ≡ 16 * v + w
      → Hex d v
      → Hex e w
      → Encodes bytes text
      → Encodes (byte ∷ bytes) (p ∷ d ∷ e ∷ text)

-- A text with no `=` and no `&`.
data NoMark : List ℕ → Type 0 where
  empty : NoMark []
  more : (c : ℕ) (text : List ℕ) → c ≢ b'=' → c ≢ b'&' → NoMark text → NoMark (c ∷ text)

Encodes-NoMark : (bytes text : List ℕ) → Encodes bytes text → NoMark text
Encodes-NoMark bytes text Encodes.empty = NoMark.empty
Encodes-NoMark bytes text (plain c bs ts p e a h) = NoMark.more c ts e a (Encodes-NoMark bs ts h)
Encodes-NoMark bytes text (escape p d e v w byte bs ts hp hb hd he h) =
    NoMark.more p (d ∷ e ∷ ts) (λ z. ground (arith, hp, z)) (λ z. ground (arith, hp, z))
      (NoMark.more d (e ∷ ts) (λ z. ground (arith, hd, z)) (λ z. ground (arith, hd, z))
        (NoMark.more e ts (λ z. ground (arith, he, z)) (λ z. ground (arith, he, z))
          (Encodes-NoMark bs ts h)))

unescape-plain : (c : ℕ) (text : List ℕ) → c ≢ b'%' → unescape (c ∷ text) ≡ c ∷ unescape text
unfolding unescape
unescape-plain c [] h = refl
unescape-plain c (d ∷ []) h = refl
unescape-plain c (d ∷ e ∷ text) h =
    let other : is_escape_of c d e ≡ false = ground (arith, h) in rw (unescape, other) refl

unescape-escape :
    (p d e : ℕ) (text : List ℕ)
    → is_escape_of p d e ≡ true
    → unescape (p ∷ d ∷ e ∷ text) ≡ escaped_byte d e ∷ unescape text
unfolding unescape
unescape-escape p d e text h = rw (unescape, h) refl

unescape-Encodes : (bytes text : List ℕ) → Encodes bytes text → unescape text ≡ bytes
unfolding unescape
unescape-Encodes bytes text Encodes.empty = refl
unescape-Encodes bytes text (plain c bs ts p e a h) =
    unescape-plain c ts p ∙ ap (λ zs. c ∷ zs) (unescape-Encodes bs ts h)
unescape-Encodes bytes text (escape p d e v w byte bs ts hp hb hd he h) =
    unescape-escape p d e ts (ground (arith, hp, (Hex-xdigit d v hd).0, (Hex-xdigit e w he).0))
    ∙ ap₂ ◌∷◌ (escaped_byte-Hex d e v w hd he ∙ sym hb) (unescape-Encodes bs ts h)

-- A name and a value, with a text that writes each.
pub record Param : Type 0 where
  pub name : List ℕ
  pub value : List ℕ
  pub name_text : List ℕ
  pub value_text : List ℕ
  pub name_encoded : Encodes name name_text
  pub value_encoded : Encodes value value_text

abbrev pub pair_of : Param → KeyValuePair
pair_of p = (p.name, p.value)

abbrev pub pairs_of : List Param → List KeyValuePair
pairs_of [] = []
pairs_of (p ∷ ps) = pair_of p ∷ pairs_of ps

-- The query `name=value&name=value`.
abbrev pub print_query : Param → List Param → List ℕ
print_query p [] = p.name_text ++ (b'=' ∷ p.value_text)
print_query p (next ∷ ps) = p.name_text ++ (b'=' ∷ (p.value_text ++ (b'&' ∷ print_query next ps)))

abbrev state_of : KeyValuePair → List ℕ → List KeyValuePair → QueryState
state_of kv field found = record { kv = kv; field = field; found = found }

read_field :
    (text rest field : List ℕ) (kv : KeyValuePair) (found : List KeyValuePair)
    → NoMark text
    → query_loop (text ++ rest) (state_of kv field found)
      ≡ query_loop rest (state_of kv (field ++ text) found)
unfolding query_loop query_step
read_field text rest field kv found NoMark.empty =
    ap (λ f. query_loop rest (state_of kv f found)) (sym (append-nil field))
read_field text rest field kv found (NoMark.more c ts e a h) =
    let eq : (c == b'=') ≡ false = ground (arith, e) in
    let amp : (c == b'&') ≡ false = ground (arith, a) in
    rw (query_loop, query_step, eq, amp)
      (read_field ts rest (field ++ (c ∷ [])) kv found h
        ∙ ap (λ f. query_loop rest (state_of kv f found)) (append_assoc field (c ∷ []) ts))

push_lem :
    (p : Param) (value : List ℕ) (found : List KeyValuePair)
    → push_pair (state_of (p.name_text, value) p.value_text found)
      ≡ some (state_of (pair_of p) [] (found ++ (pair_of p ∷ [])))
unfolding push_pair decode_pair
push_lem p value found =
    let name =
      decode-unescape p.name_text ∙ ap some (unescape-Encodes p.name p.name_text p.name_encoded) in
    let text =
      decode-unescape p.value_text
      ∙ ap some (unescape-Encodes p.value p.value_text p.value_encoded) in
    rw (push_pair, decode_pair, name, text) refl

module _ (p : Param) (rest : List ℕ) (kv : KeyValuePair) (found : List KeyValuePair) where
  read_name :
      query_loop (p.name_text ++ (b'=' ∷ rest)) (state_of kv [] found)
      ≡ query_loop rest (state_of (p.name_text, kv.1) [] found)
  unfolding query_loop query_step
  read_name =
      read_field p.name_text (b'=' ∷ rest) [] kv found
        (Encodes-NoMark p.name p.name_text p.name_encoded)

  read_value :
      query_loop (p.value_text ++ (b'&' ∷ rest)) (state_of (p.name_text, kv.1) [] found)
      ≡ query_loop rest (state_of (pair_of p) [] (found ++ (pair_of p ∷ [])))
  unfolding query_loop query_step
  read_value =
      read_field p.value_text (b'&' ∷ rest) [] (p.name_text, kv.1) found
        (Encodes-NoMark p.value p.value_text p.value_encoded)
      ∙ rw (query_loop, query_step, push_lem p kv.1 found) refl

read_last :
    (p : Param) (value : List ℕ) (found : List KeyValuePair)
    → query_loop p.value_text (state_of (p.name_text, value) [] found)
      ≡ some (found ++ (pair_of p ∷ []))
unfolding query_loop
read_last p value found =
    ap (λ t. query_loop t (state_of (p.name_text, value) [] found)) (sym (append-nil p.value_text))
    ∙ read_field p.value_text [] [] (p.name_text, value) found
        (Encodes-NoMark p.value p.value_text p.value_encoded)
    ∙ rw (query_loop, push_lem p value found) refl

query_lem :
    (ps : List Param) (p : Param) (kv : KeyValuePair) (found : List KeyValuePair)
    → query_loop (print_query p ps) (state_of kv [] found) ≡ some (found ++ pairs_of (p ∷ ps))
query_lem [] p kv found = read_name p p.value_text kv found ∙ read_last p kv.1 found
query_lem (next ∷ ps) p kv found =
    read_name p (p.value_text ++ (b'&' ∷ print_query next ps)) kv found
    ∙ read_value p (print_query next ps) kv found
    ∙ query_lem ps next (pair_of p) (found ++ (pair_of p ∷ []))
    ∙ ap some (append_assoc found (pair_of p ∷ []) (pairs_of (next ∷ ps)))

-- The pairs of a query are read back from its text, if each name and value is written with its bytes
-- as they are or as escapes, and `%`, `=` and `&` as escapes only.
pub parse_query_lem :
    (p : Param) (ps : List Param) → parse_query (print_query p ps) ≡ some (pairs_of (p ∷ ps))
unfolding parse_query
parse_query_lem p ps = query_lem ps p ([], []) []
