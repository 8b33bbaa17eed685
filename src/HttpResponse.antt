-- ===== src/HttpResponse.antt =====
-- lib_http/http_response.h, http_response.cpp, http_utils.cpp, and the header fields of
-- http_payload.h and http_payload.cpp: a response, which the server reads in parts. `sprintf` of an
-- `int`, given by its 32 bits, is a parameter.
use sensor_libs.Prelude.{
  ℕ, zero, suc, ◌+◌, ◌%◌, ◌^◌, Option, none, some, List, [], ◌∷◌, ◌++◌, length, drop, ◌==◌, ltb,
  if◌then◌else◌, codes,
}
use sensor_libs.HttpPayload.{
  HttpResult, complete, incomplete, Payload, empty_payload, json, blob, test_payload, commit,
}
use sensor_libs.HttpPayload
use sensor_libs.HttpRequest.{KeyValuePair}
pub mod Commit
pub mod Stream

-- The texts of the status codes.
unfoldable pub status_text : ℕ → Option (List ℕ)
status_text code =
    if code == 200
    then some (codes "OK")
    else if code == 201
    then some (codes "Created")
    else if code == 204
    then some (codes "No Content")
    else if code == 206
    then some (codes "Partial Content")
    else if code == 301
    then some (codes "Moved Permanently")
    else if code == 400
    then some (codes "Bad Request")
    else if code == 401
    then some (codes "Unauthorized")
    else if code == 403
    then some (codes "Forbidden")
    else if code == 404
    then some (codes "Not Found")
    else if code == 413
    then some (codes "Request Entity Too Large")
    else if code == 415
    then some (codes "Unsupported Media Type")
    else if code == 500
    then some (codes "Internal Server Error")
    else if code == 501
    then some (codes "Not Implemented")
    else if code == 503
    then some (codes "Service Unavailable")
    else if code == 408
    then some (codes "Request Timeout")
    else none

pub record HttpResponse : Type 0 where
  pub status_code : ℕ
  pub payload : Payload
  pub header : List ℕ
  pub header_fields : List KeyValuePair
  pub header_pos : ℕ

abbrev pub line_end : List ℕ
line_end = 13 ∷ 10 ∷ []

abbrev pub header_lines : List KeyValuePair → List ℕ
header_lines [] = []
header_lines (kv ∷ rest) = kv.0 ++ (codes ": " ++ (kv.1 ++ (line_end ++ header_lines rest)))

abbrev pub set_status_code : HttpResponse → ℕ → HttpResponse
set_status_code r status = record r { status_code = status }

abbrev pub add_header_field : HttpResponse → KeyValuePair → HttpResponse
add_header_field r kv = record r { header_fields = r.header_fields ++ (kv ∷ []) }

-- What the pointer and the size give, of the response with its header.
unfoldable pub read_ready : HttpResponse → Option (List ℕ)
unfolding HttpPayload.get_read_ptr
read_ready r =
    if ltb r.header_pos (length r.header)
    then some (drop r.header_pos r.header)
    else HttpPayload.get_read_ptr r.payload

unfoldable pub commit_read : HttpResponse → ℕ → HttpResult × HttpResponse
unfolding commit
commit_read r n =
    if r.header_pos == length r.header
    then (let (res, payload) = commit r.payload n in (res, record r { payload = payload }))
    else (incomplete, record r { header_pos = r.header_pos + n })

module _ (to_string : ℕ → List ℕ) where
  unfoldable pub get_header_fields : Payload → List KeyValuePair
  get_header_fields empty_payload =
      (codes "Content-Length", codes "0") ∷ (codes "Connection", codes "close") ∷ []
  get_header_fields (json text pos) =
      (codes "Content-Length", to_string (length text % 2 ^ 32))
      ∷ (codes "Content-Type", codes "application/json")
      ∷ (codes "Connection", codes "close")
      ∷ []
  get_header_fields (blob bytes pos) =
      (codes "Content-Type", codes "application/octet-stream")
      ∷ (codes "Content-Length", to_string (length bytes % 2 ^ 32))
      ∷ (codes "Connection", codes "close")
      ∷ []
  get_header_fields (test_payload size pos) =
      (codes "Content-Length", to_string (size % 2 ^ 32))
      ∷ (codes "Content-Type", codes "application/octet-stream")
      ∷ (codes "Connection", codes "close")
      ∷ []

  unfoldable pub set_payload : HttpResponse → Payload → HttpResponse
  unfolding get_header_fields
  set_payload r payload = record r { header_fields = get_header_fields payload; payload = payload }

  unfoldable pub new_http_response : HttpResponse
  unfolding set_payload
  new_http_response =
      set_payload
        (record {
          status_code = 0;
          payload = empty_payload;
          header = [];
          header_fields = [];
          header_pos = 0;
        })
        empty_payload

  -- The header; `none` is a status code without a text.
  unfoldable pub build_header_string : HttpResponse → Option (List ℕ)
  unfolding status_text
  build_header_string r = elim (status_text r.status_code) [
    | none ↦ none
    | some text ↦ some (
        codes "HTTP/1.1 "
        ++ (to_string r.status_code
            ++ (codes " " ++ (text ++ (line_end ++ (header_lines r.header_fields ++ line_end))))))
  ]

  -- The header is built at the first call. `none` is -1, or a payload read behind its end.
  unfoldable pub with_header : HttpResponse → Option HttpResponse
  unfolding build_header_string
  with_header r = elim r.header [
    | [] ↦ elim (build_header_string r) [
      | none ↦ none
      | some header ↦ some (record r { header = header; header_pos = 0 })
    ]
    | c ∷ cs ↦ some r
  ]

  unfoldable pub get_read_ptr : HttpResponse → Option (List ℕ × HttpResponse)
  unfolding with_header read_ready
  get_read_ptr r = elim (with_header r) [
    | none ↦ none
    | some r' ↦ elim (read_ready r') [ none ↦ none | some bytes ↦ some (bytes, r') ]
  ]
