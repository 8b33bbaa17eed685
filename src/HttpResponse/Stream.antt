-- ===== src/HttpResponse/Stream.antt =====
-- lib_http/http_response.cpp: the bytes that a response still has to give, its header included.
use sensor_libs.Prelude.{
  ℕ, ◌≤◌, ◌≡◌, ◌⊎◌, inl, inr, refl, none, some, List, ◌∷◌, ◌++◌, length, arith, Option-cases, codes,
}
use sensor_libs.HttpPayload.Delivery.{remaining, IsWithin}
use sensor_libs.HttpResponse.{
  HttpResponse, status_text, build_header_string, with_header, line_end, header_lines,
}
use sensor_libs.HttpResponse.Commit.{IsReady, unread, List-cases}

-- A response before its first read, or one that is being read.
pub record IsResponse (r : HttpResponse) : Type 0 where
  pub header_part : r.header_pos ≤ length r.header
  pub payload_part : IsWithin r.payload

module _ (to_string : ℕ → List ℕ) where
  -- The bytes that the response still has to give; none but the payload's where no header can be built.
  pub unsent : HttpResponse → List ℕ
  unsent r = elim (with_header to_string r) [ none ↦ remaining r.payload | some r' ↦ unread r' ]

  pub unsent-with_header :
      (r r0 : HttpResponse) → with_header to_string r ≡ some r0 → unsent r ≡ unread r0
  unfolding unsent
  unsent-with_header r r0 e = rw (unsent, e) refl

  build_header_string-cases :
      (r : HttpResponse)
      → (build_header_string to_string r ≡ none)
        ⊎ ((c : ℕ) × (cs : List ℕ) × (build_header_string to_string r ≡ some (c ∷ cs)))
  unfolding build_header_string
  build_header_string-cases r = elim (Option-cases (status_text r.status_code)) [
    | inl e ↦ inl (rw (build_header_string, e) refl)
    | inr (text, e) ↦ inr (
      b'H',
      codes "TTP/1.1 "
          ++ (to_string r.status_code
              ++ (codes " " ++ (text ++ (line_end ++ (header_lines r.header_fields ++ line_end))))),
      rw (build_header_string, e) refl,
    )
  ]

  pub with_header-ready : (r : HttpResponse) → IsReady r → with_header to_string r ≡ some r
  unfolding with_header
  with_header-ready r ready = elim (List-cases r.header) [
    | inl e ↦ absurd (ready.built e)
    | inr (c, cs, e) ↦ simp (with_header, e)
  ]

  pub unsent-ready : (r : HttpResponse) → IsReady r → unsent r ≡ unread r
  unfolding unsent
  unsent-ready r ready = rw (unsent, with_header-ready r ready) refl

  pub with_header-cases :
      (r : HttpResponse)
      → IsResponse r
      → (with_header to_string r ≡ none)
        ⊎ ((r' : HttpResponse) × (with_header to_string r ≡ some r') × IsReady r')
  unfolding with_header
  with_header-cases r v = elim (List-cases r.header) [
    | inl e ↦ elim (build_header_string-cases r) [
      | inl n ↦ inl (rw (with_header, e, n) refl)
      | inr (c, cs, b) ↦ inr (
        record r { header = c ∷ cs; header_pos = 0 },
        rw (with_header, e, b) refl,
        record { built = λ z. cc; within_header = omega arith; within_payload = v.payload_part },
      )
    ]
    | inr (c, cs, e) ↦ inr (
      r,
      simp (with_header, e),
      record { built = λ z. cc; within_header = v.header_part; within_payload = v.payload_part },
    )
  ]
