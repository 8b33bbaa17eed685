-- ===== src/HttpRequest.antt =====
-- lib_http/http_request.h, http_request.cpp: what the callbacks of the HTTP parser build of a request,
-- and the choice of a handler. A string is the list of its bytes. The parser itself is not under this
-- model: its callbacks' calls are arguments.
use sensor_libs.Prelude.{
  ℕ, zero, suc, ◌+◌, ◌-◌, ◌*◌, ◌%◌, ◌≡◌, Bool, true, false, not, ◌&&◌, ◌||◌, Option, none, some,
  List, [], ◌∷◌, ◌++◌, length, get_or, set, take, slice, ◌==◌, ltb, leb, if◌then◌else◌,
}
use sensor_libs.HttpPayload.{HttpResult, complete, incomplete, error}
pub mod Unescapes
pub mod Escapes
pub mod Query
pub mod Headers
pub mod Routes
mod Tests

abbrev pub KeyValuePair : Type 0
KeyValuePair = List ℕ × List ℕ

-- `strcmp`, on the bytes up to a 0.
abbrev pub is_same_text : List ℕ → List ℕ → Bool
is_same_text [] [] = true
is_same_text [] (y ∷ ys) = y == 0
is_same_text (x ∷ xs) [] = x == 0
is_same_text (x ∷ xs) (y ∷ ys) = (x == y) && ((x == 0) || is_same_text xs ys)

abbrev pub is_xdigit : ℕ → Bool
is_xdigit c = (leb b'0' c && leb c b'9') || (leb b'A' c && leb c b'F') || (leb b'a' c && leb c b'f')

abbrev pub digit_value : ℕ → ℕ
digit_value c =
    if leb c b'9' then c - b'0' else (if leb c b'F' then c - (b'A' - 10) else c - (b'a' - 10))

abbrev pub escaped_byte : ℕ → ℕ → ℕ
escaped_byte hi lo = (16 * digit_value hi + digit_value lo) % 256

-- The test on an escape at a position; behind the last byte stands a 0.
unfoldable pub is_escape : List ℕ → ℕ → Bool
is_escape bytes r =
    let hi = get_or bytes (r + 1) 0 in
    let lo = get_or bytes (r + 2) 0 in
    (get_or bytes r 0 == b'%') && not (hi == 0) && not (lo == 0) && is_xdigit hi && is_xdigit lo

-- One round of the loop, which reads at `r` and writes at `n` of the same bytes, with the next `r`.
unfoldable pub decode_step : List ℕ → ℕ → ℕ → List ℕ × ℕ
unfolding is_escape
decode_step bytes r n =
    let hi = get_or bytes (r + 1) 0 in
    let lo = get_or bytes (r + 2) 0 in
    let digits = set (set bytes (r + 1) (digit_value hi)) (r + 2) (digit_value lo) in
    if is_escape bytes r
    then (set digits n (escaped_byte hi lo), r + 3)
    else (set bytes n (get_or bytes r 0), r + 1)

unfoldable pub decode_loop : ℕ → List ℕ → ℕ → ℕ → Option (List ℕ)
unfolding decode_step
decode_loop zero bytes r n = none
decode_loop (suc fuel) bytes r n =
    let (bytes', r') = decode_step bytes r n in
    let rest = decode_loop fuel bytes' r' (n + 1) in
    if ltb r (length bytes) then rest else some (take n bytes)

-- The call with one string as the source and the destination. `none` is no fuel; a round for each byte
-- is enough.
unfoldable pub decode_uri_escape_sequences : List ℕ → Option (List ℕ)
unfolding decode_loop
decode_uri_escape_sequences bytes = decode_loop (suc (length bytes)) bytes 0 0

decode_pair : KeyValuePair → Option KeyValuePair
unfolding decode_uri_escape_sequences
decode_pair (key, value) = elim (decode_uri_escape_sequences key) [
  | none ↦ none
  | some key' ↦ elim (decode_uri_escape_sequences value) [
    | none ↦ none
    | some value' ↦ some (key', value')
  ]
]

-- The loop over the query: `kv`, the bytes from `fieldCursor` on, and the pairs found.
pub record QueryState : Type 0 where
  pub kv : KeyValuePair
  pub field : List ℕ
  pub found : List KeyValuePair

-- The bytes before the position are the value; the pair is decoded and pushed.
unfoldable pub push_pair : QueryState → Option QueryState
unfolding decode_pair
push_pair s = elim (decode_pair (s.kv.0, s.field)) [
  | none ↦ none
  | some kv ↦ some (record { kv = kv; field = []; found = s.found ++ (kv ∷ []) })
]

unfoldable pub query_step : QueryState → ℕ → Option QueryState
unfolding push_pair
query_step s c =
    if c == b'='
    then some (record s { kv = (s.field, s.kv.1); field = [] })
    else if c == b'&'
    then push_pair s
    else some (record s { field = s.field ++ (c ∷ []) })

unfoldable pub query_loop : List ℕ → QueryState → Option (List KeyValuePair)
unfolding query_step push_pair
query_loop [] s = elim (push_pair s) [ none ↦ none | some s' ↦ some s'.found ]
query_loop (c ∷ cs) s = elim (query_step s c) [ none ↦ none | some s' ↦ query_loop cs s' ]

-- The pairs of a query.
unfoldable pub parse_query : List ℕ → Option (List KeyValuePair)
unfolding query_loop
parse_query query = query_loop query (record { kv = ([], []); field = []; found = [] })

abbrev pub is_empty : List ℕ → Bool
is_empty [] = true
is_empty (c ∷ cs) = false

-- Whether there is no last field, or it has a value.
abbrev pub starts_new : List KeyValuePair → Bool
starts_new [] = true
starts_new ((name, value) ∷ []) = not (is_empty value)
starts_new (kv ∷ next ∷ rest) = starts_new (next ∷ rest)

abbrev pub modify_last : (KeyValuePair → KeyValuePair) → List KeyValuePair → List KeyValuePair
modify_last g [] = []
modify_last g (kv ∷ []) = g kv ∷ []
modify_last g (kv ∷ next ∷ rest) = kv ∷ modify_last g (next ∷ rest)

unfoldable pub on_header_field : List KeyValuePair → List ℕ → List KeyValuePair
on_header_field fields bytes =
    if starts_new fields
    then fields ++ ((bytes, []) ∷ [])
    else modify_last (λ kv. (kv.0 ++ bytes, kv.1)) fields

-- `none` is the last of no fields.
unfoldable pub on_header_value : List KeyValuePair → List ℕ → Option (List KeyValuePair)
on_header_value [] bytes = none
on_header_value (kv ∷ rest) bytes = some (modify_last (λ kv. (kv.0, kv.1 ++ bytes)) (kv ∷ rest))

-- What `http_parser_parse_url` says of a URL.
pub record UrlParts : Type 0 where
  pub is_ok : Bool
  pub path_part : ℕ × ℕ
  pub query_part : Option (ℕ × ℕ)

pub record HttpRequest : Type 0 where
  pub query_parameters : List KeyValuePair
  pub header_fields : List KeyValuePair
  pub body : List ℕ
  pub url : List ℕ
  pub path : List ℕ
  pub state : HttpResult
  pub remote_ip : ℕ

-- A callback that the parser makes.
pub data Callback : Type 0 where
  url_part header_field_part header_value_part body_part : List ℕ → Callback
  headers_complete message_complete : Callback

abbrev pub new_http_request : HttpRequest
new_http_request = record {
  query_parameters = [];
  header_fields = [];
  body = [];
  url = [];
  path = [];
  state = incomplete;
  remote_ip = 0;
}

abbrev pub part : List ℕ → ℕ × ℕ → List ℕ
part text (off, len) = slice text off len

module _ (parse_url : List ℕ → UrlParts) where
  unfoldable pub on_headers_complete : HttpRequest → Option HttpRequest
  unfolding parse_query
  on_headers_complete req =
      let parts = parse_url req.url in
      let req' = record req { path = part req.url parts.path_part } in
      if parts.is_ok
      then elim parts.query_part [
        | none ↦ some req'
        | some query ↦ elim (parse_query (part req.url query)) [
          | none ↦ none
          | some pairs ↦ some (record req' { query_parameters = req.query_parameters ++ pairs })
        ]
      ]
      else some req'

  unfoldable pub callback : HttpRequest → Callback → Option HttpRequest
  unfolding on_headers_complete on_header_field on_header_value
  callback req (url_part bytes) = some (record req { url = req.url ++ bytes })
  callback req (header_field_part bytes) =
      some (record req { header_fields = on_header_field req.header_fields bytes })
  callback req (header_value_part bytes) = elim (on_header_value req.header_fields bytes) [
    | none ↦ none
    | some fields ↦ some (record req { header_fields = fields })
  ]
  callback req (body_part bytes) = some (record req { body = req.body ++ bytes })
  callback req headers_complete = on_headers_complete req
  callback req message_complete = some (record req { state = complete })

  unfoldable pub callbacks : HttpRequest → List Callback → Option HttpRequest
  unfolding callback
  callbacks req [] = some req
  callbacks req (c ∷ cs) = elim (callback req c) [ none ↦ none | some req' ↦ callbacks req' cs ]

  -- `execute` is `http_parser_execute`: the callbacks that it makes, and how many bytes it parsed.
  unfoldable pub read_from :
      {P : Type 0}
      → (execute : P → List ℕ → P × (List Callback × ℕ)) → P
      → HttpRequest
      → List ℕ
      → Option (HttpResult × (P × HttpRequest))
  unfolding callbacks
  read_from execute parser req bytes = elim req.state [
    | incomplete ↦
        let (parser', (cs, parsed)) = execute parser bytes in
        elim (callbacks req cs) [
          | none ↦ none
          | some req' ↦ some (if parsed == length bytes then req'.state else error, (parser', req'))
        ]
    | other ↦ some (other, (parser, req))
  ]

-- `query_param` and `header_field`: the value of the first pair with the name. A name ends at its
-- first 0 for the comparison.
unfoldable pub lookup : List KeyValuePair → List ℕ → Option (List ℕ)
lookup [] name = none
lookup ((key, value) ∷ rest) name = if is_same_text key name then some value else lookup rest name
