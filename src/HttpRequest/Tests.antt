-- ===== src/HttpRequest/Tests.antt =====
-- lib_http/http_request.cpp: queries, header fields and routes, read in full.
use sensor_libs.Prelude.{ℕ, ◌≡◌, refl, false, none, some, inl, inr, List, [], ◌∷◌, arith}
use sensor_libs.HttpRequest.{
  decode_uri_escape_sequences, parse_query, UrlParts, new_http_request, callbacks, headers_complete,
}
use sensor_libs.HttpRequest.Unescapes.{Unescapes}
use sensor_libs.HttpRequest.Escapes.{decode_lem}
use sensor_libs.HttpRequest.Query.{
  Encodes, plain, escape, Param, print_query, pairs_of, parse_query_lem,
}
use sensor_libs.HttpRequest.Headers.{Header, header_calls, fields_of, header_calls_lem}
use sensor_libs.HttpRequest.Routes.{
  MethodPath, find_http_handler, NoZero, Finds, find_http_handler_lem,
}

-- `a%2Fb%`.
abbrev escaped_text : List ℕ
escaped_text = b'a' ∷ b'%' ∷ b'2' ∷ b'F' ∷ b'b' ∷ b'%' ∷ []

decode_lem_example :
    (decoded : List ℕ) × (decode_uri_escape_sequences escaped_text ≡ some decoded)
    × Unescapes escaped_text decoded
decode_lem_example = decode_lem escaped_text

escaped_text-decoded :
    decode_uri_escape_sequences escaped_text ≡ some (b'a' ∷ b'/' ∷ b'b' ∷ b'%' ∷ [])
unfolding decode_uri_escape_sequences
escaped_text-decoded = refl

-- `q` with the value `=`.
abbrev query_param : Param
query_param = record {
  name = b'q' ∷ [];
  value = b'=' ∷ [];
  name_text = b'q' ∷ [];
  value_text = b'%' ∷ b'3' ∷ b'd' ∷ [];
  name_encoded =
      plain b'q' [] [] (λ e. omega (arith, e)) (λ e. omega (arith, e)) (λ e. omega (arith, e))
        Encodes.empty;
  value_encoded =
      escape b'%' b'3' b'd' 3 13 b'=' [] [] refl refl (inl (omega arith)) (inr (inr (omega arith)))
        Encodes.empty;
}

parse_query_lem_example :
    parse_query (print_query query_param (query_param ∷ []))
    ≡ some (pairs_of (query_param ∷ query_param ∷ []))
parse_query_lem_example = parse_query_lem query_param (query_param ∷ [])

-- A name without `=` takes the name before it.
stale_name :
    parse_query (b'a' ∷ b'=' ∷ b'1' ∷ b'&' ∷ b'b' ∷ [])
    ≡ some ((b'a' ∷ [], b'1' ∷ []) ∷ (b'a' ∷ [], b'b' ∷ []) ∷ [])
unfolding parse_query decode_uri_escape_sequences
stale_name = refl

-- `Host: x` in three parts, and `A: y`.
abbrev host : Header
host = record {
  name_start = b'H' ∷ b'o' ∷ [];
  name_parts = (b's' ∷ b't' ∷ []) ∷ [];
  value_parts = (b'x' ∷ []) ∷ [];
  has_value = refl;
}

abbrev letter : Header
letter = record {
  name_start = b'A' ∷ [];
  name_parts = [];
  value_parts = (b'y' ∷ []) ∷ [];
  has_value = refl;
}

abbrev no_parts : List ℕ → UrlParts
no_parts url = record { is_ok = false; path_part = (0, 0); query_part = none }

header_calls_lem_example :
    callbacks no_parts new_http_request (header_calls (host ∷ letter ∷ []) (headers_complete ∷ []))
    ≡ callbacks no_parts
        (record new_http_request { header_fields = fields_of (host ∷ letter ∷ []) })
        (headers_complete ∷ [])
header_calls_lem_example =
    header_calls_lem no_parts new_http_request (host ∷ letter ∷ []) (headers_complete ∷ []) refl

-- `GET /*` and `GET /a`, in the map's order, for either use of TLS.
abbrev two_routes : List (MethodPath × ℕ)
two_routes =
    (record { method = 1; path = b'/' ∷ b'*' ∷ []; tls_match = 2 }, 10)
    ∷ (record { method = 1; path = b'/' ∷ b'a' ∷ []; tls_match = 2 }, 20)
    ∷ []

path_a-NoZero : NoZero (b'/' ∷ b'a' ∷ [])
path_a-NoZero =
    NoZero.more b'/' (b'a' ∷ []) (λ e. omega (arith, e))
      (NoZero.more b'a' [] (λ e. omega (arith, e)) NoZero.empty)

find_http_handler_lem_example :
    Finds two_routes 1
      (b'/' ∷ b'a' ∷ [])
      false
      (find_http_handler two_routes 1 (b'/' ∷ b'a' ∷ []) false)
find_http_handler_lem_example =
    find_http_handler_lem two_routes 1 (b'/' ∷ b'a' ∷ []) false path_a-NoZero

-- The pattern with the `*` comes first in the map, and takes the request.
star_first : find_http_handler two_routes 1 (b'/' ∷ b'a' ∷ []) false ≡ some 10
unfolding find_http_handler
star_first = refl
