-- ===== src/HttpRequest/Headers.antt =====
-- lib_http/http_request.cpp: the header fields, from the parts in which the parser reports them.
use sensor_libs.Prelude.{
  ℕ, ◌≡◌, refl, sym, ap, ◌∙◌, true, false, not, some, List, [], ◌∷◌, ◌++◌, append_assoc, append-nil,
}
use sensor_libs.HttpRequest.{
  KeyValuePair, is_empty, starts_new, modify_last, on_header_field, on_header_value, HttpRequest,
  Callback, header_field_part, header_value_part, callback, callbacks, UrlParts,
}

abbrev pub concat : List (List ℕ) → List ℕ
concat [] = []
concat (x ∷ xs) = x ++ concat xs

-- A header field in the parts of its name and its value, which is not empty.
pub record Header : Type 0 where
  pub name_start : List ℕ
  pub name_parts : List (List ℕ)
  pub value_parts : List (List ℕ)
  pub has_value : is_empty (concat value_parts) ≡ false

abbrev name_calls : List (List ℕ) → List Callback → List Callback
name_calls [] rest = rest
name_calls (x ∷ xs) rest = header_field_part x ∷ name_calls xs rest

abbrev value_calls : List (List ℕ) → List Callback → List Callback
value_calls [] rest = rest
value_calls (x ∷ xs) rest = header_value_part x ∷ value_calls xs rest

-- The callbacks for the fields.
abbrev pub header_calls : List Header → List Callback → List Callback
header_calls [] rest = rest
header_calls (h ∷ hs) rest =
    header_field_part h.name_start
    ∷ name_calls h.name_parts (value_calls h.value_parts (header_calls hs rest))

abbrev pub field_of : Header → KeyValuePair
field_of h = (h.name_start ++ concat h.name_parts, concat h.value_parts)

abbrev pub fields_of : List Header → List KeyValuePair
fields_of [] = []
fields_of (h ∷ hs) = field_of h ∷ fields_of hs

starts_new-append :
    (fields : List KeyValuePair) (name value : List ℕ)
    → starts_new (fields ++ ((name, value) ∷ [])) ≡ not (is_empty value)
starts_new-append [] name value = refl
starts_new-append (kv ∷ []) name value = refl
starts_new-append (kv ∷ next ∷ rest) name value = starts_new-append (next ∷ rest) name value

modify_last-append :
    (g : KeyValuePair → KeyValuePair) (fields : List KeyValuePair) (kv : KeyValuePair)
    → modify_last g (fields ++ (kv ∷ [])) ≡ fields ++ (g kv ∷ [])
modify_last-append g [] kv = refl
modify_last-append g (f ∷ []) kv = refl
modify_last-append g (f ∷ next ∷ rest) kv =
    ap (λ zs. f ∷ zs) (modify_last-append g (next ∷ rest) kv)

on_header_field-more :
    (fields : List KeyValuePair) (name bytes : List ℕ)
    → on_header_field (fields ++ ((name, []) ∷ [])) bytes ≡ fields ++ ((name ++ bytes, []) ∷ [])
unfolding on_header_field
on_header_field-more fields name bytes =
    rw (on_header_field, starts_new-append fields name [])
      (modify_last-append (λ kv. (kv.0 ++ bytes, kv.1)) fields (name, []))

on_header_value-append :
    (fields : List KeyValuePair) (name value bytes : List ℕ)
    → on_header_value (fields ++ ((name, value) ∷ [])) bytes
      ≡ some (fields ++ ((name, value ++ bytes) ∷ []))
unfolding on_header_value
on_header_value-append [] name value bytes = refl
on_header_value-append (f ∷ fields) name value bytes =
    ap some (modify_last-append (λ kv. (kv.0, kv.1 ++ bytes)) (f ∷ fields) (name, value))

module _ (parse_url : List ℕ → UrlParts) (req : HttpRequest) where
  abbrev with_fields : List KeyValuePair → HttpRequest
  with_fields fields = record req { header_fields = fields }

  names_lem :
      (xs : List (List ℕ)) (fields : List KeyValuePair) (name : List ℕ) (rest : List Callback)
      → callbacks parse_url (with_fields (fields ++ ((name, []) ∷ []))) (name_calls xs rest)
        ≡ callbacks parse_url (with_fields (fields ++ ((name ++ concat xs, []) ∷ []))) rest
  unfolding callbacks callback
  names_lem [] fields name rest =
      ap (λ n. callbacks parse_url (with_fields (fields ++ ((n, []) ∷ []))) rest)
        (sym (append-nil name))
  names_lem (x ∷ xs) fields name rest =
      ap (λ fs. callbacks parse_url (with_fields fs) (name_calls xs rest))
        (on_header_field-more fields name x)
      ∙ names_lem xs fields (name ++ x) rest
      ∙ ap (λ n. callbacks parse_url (with_fields (fields ++ ((n, []) ∷ []))) rest)
          (append_assoc name x (concat xs))

  values_lem :
      (xs : List (List ℕ)) (fields : List KeyValuePair) (name value : List ℕ) (rest : List Callback)
      → callbacks parse_url (with_fields (fields ++ ((name, value) ∷ []))) (value_calls xs rest)
        ≡ callbacks parse_url (with_fields (fields ++ ((name, value ++ concat xs) ∷ []))) rest
  unfolding callbacks callback
  values_lem [] fields name value rest =
      ap (λ v. callbacks parse_url (with_fields (fields ++ ((name, v) ∷ []))) rest)
        (sym (append-nil value))
  values_lem (x ∷ xs) fields name value rest =
      rw (callbacks, callback, on_header_value-append fields name value x)
        (values_lem xs fields name (value ++ x) rest
          ∙ ap (λ v. callbacks parse_url (with_fields (fields ++ ((name, v) ∷ []))) rest)
              (append_assoc value x (concat xs)))

  headers_lem :
      (hs : List Header) (fields : List KeyValuePair) (rest : List Callback)
      → starts_new fields ≡ true
      → callbacks parse_url (with_fields fields) (header_calls hs rest)
        ≡ callbacks parse_url (with_fields (fields ++ fields_of hs)) rest
  unfolding callbacks callback on_header_field
  headers_lem [] fields rest new =
      ap (λ fs. callbacks parse_url (with_fields fs) rest) (sym (append-nil fields))
  headers_lem (h ∷ hs) fields rest new =
      rw (callbacks, callback, on_header_field, new)
        (names_lem h.name_parts fields h.name_start
            (value_calls h.value_parts (header_calls hs rest))
          ∙ values_lem h.value_parts fields (h.name_start ++ concat h.name_parts) []
              (header_calls hs rest)
          ∙ headers_lem hs (fields ++ (field_of h ∷ [])) rest (
              starts_new-append fields (h.name_start ++ concat h.name_parts) (concat h.value_parts)
              ∙ ap not h.has_value)
          ∙ ap (λ fs. callbacks parse_url (with_fields fs) rest)
              (append_assoc fields (field_of h ∷ []) (fields_of hs)))

-- However the parser cuts the names and the values of header fields into parts, the request has the
-- whole names and values in their order, if no value is empty and its last field so far has a value.
pub header_calls_lem :
    (parse_url : List ℕ → UrlParts) (req : HttpRequest) (hs : List Header) (rest : List Callback)
    → starts_new req.header_fields ≡ true
    → callbacks parse_url req (header_calls hs rest)
      ≡ callbacks parse_url (record req { header_fields = req.header_fields ++ fields_of hs }) rest
header_calls_lem parse_url req hs rest new = headers_lem parse_url req hs req.header_fields rest new
