-- ===== src/HttpServer/Fill.antt =====
-- lib_http/http_server.cpp: the loop that fills a packet from a response.
use native.Mathlib.Decide.{dec_lt}
use sensor_libs.Prelude.{
  ℕ, zero, suc, ◌+◌, ◌-◌, ◌<◌, ◌≡◌, ◌⊎◌, inl, inr, refl, sym, ap, ◌∙◌, Option, none, some, List, [],
  ◌++◌, append_assoc, append-nil, length, length-append, length-take, take, min, arith, ltb, ◌&&◌,
  Bool-cases, true, false,
}
use sensor_libs.HttpPayload.{HttpResult, complete, incomplete}
use sensor_libs.HttpResponse.{HttpResponse, get_read_ptr, with_header, read_ready, commit_read}
use sensor_libs.HttpResponse.Commit.{IsReady, unread, read_lem}
use sensor_libs.HttpResponse.Stream.{with_header-ready}
use sensor_libs.HttpServer.{fill}

abbrev pub packet_bytes : Option (List ℕ) → List ℕ
packet_bytes none = []
packet_bytes (some packet) = packet

pub ltb_self : (n : ℕ) → ltb n n ≡ false
ltb_self n = ground arith

module _ (to_string : ℕ → List ℕ) where
  pub get_read_ptr-ready :
      (r r' : HttpResponse) (bytes : List ℕ)
      → with_header to_string r ≡ some r'
      → read_ready r' ≡ some bytes
      → get_read_ptr to_string r ≡ some (bytes, r')
  unfolding get_read_ptr
  get_read_ptr-ready r r' bytes e f = rw (get_read_ptr, e, f) refl

  -- What the loop has put into the packet, and leaves.
  pub record Fills (fuel : ℕ) (r r0 : HttpResponse) (room : ℕ) (packet : List ℕ) (res : HttpResult)
      : Type 0 where
    pub added : List ℕ
    pub left : ℕ
    pub result : HttpResult
    pub after : HttpResponse
    pub returns : fill to_string fuel r room packet res ≡ (packet ++ added, (left, (result, after)))
    pub ready : IsReady after
    pub order : added ++ unread after ≡ unread r0
    pub size : length added + left ≡ room
    pub ends : result ≡ complete → unread after ≡ []
    pub full : (left ≡ 0) ⊎ (unread after ≡ [])
    pub known : (result ≡ complete) ⊎ (result ≡ incomplete)

  pub fill_more :
      (fuel room n : ℕ) (packet bytes : List ℕ) (res res' : HttpResult) (r r' r'' : HttpResponse)
      → get_read_ptr to_string r ≡ some (bytes, r')
      → min (length bytes) room ≡ n
      → commit_read r' n ≡ (res', r'')
      → (ltb 0 (length bytes) && ltb 0 room) ≡ true
      → fill to_string (suc fuel) r room packet res
        ≡ fill to_string fuel r'' (room - n) (packet ++ take n bytes) res'
  unfolding fill
  fill_more fuel room n packet bytes res res' r r' r'' got e c more =
      rw (fill, got, e, c, more) refl

  pub fill_stop :
      (fuel room : ℕ) (packet bytes : List ℕ) (res : HttpResult) (r r' : HttpResponse)
      → get_read_ptr to_string r ≡ some (bytes, r')
      → (ltb 0 (length bytes) && ltb 0 room) ≡ false
      → fill to_string (suc fuel) r room packet res ≡ (packet, (room, (res, r')))
  unfolding fill
  fill_stop fuel room packet bytes res r r' got stop = rw (fill, got, stop) refl

  pub fill_lem :
      (fuel : ℕ) (r r0 : HttpResponse) (room : ℕ) (packet : List ℕ) (res : HttpResult)
      → room < fuel
      → with_header to_string r ≡ some r0
      → IsReady r0
      → (res ≡ complete → unread r0 ≡ [])
      → (res ≡ complete) ⊎ (res ≡ incomplete)
      → Fills fuel r r0 room packet res
  fill_lem zero r r0 room packet res l e ready h k = absurd (omega arith)
  fill_lem (suc fuel) r r0 room packet res l e ready h k =
      let (bytes, read, at_end, commits) = read_lem r0 ready in
      let got = get_read_ptr-ready r r0 bytes e read in
      elim (Bool-cases (ltb 0 (length bytes) && ltb 0 room)) [
        | inl more ↦
            let n = min (length bytes) room in
            let c = commits n (omega arith) in
            let rest =
              fill_lem fuel c.after c.after (room - n) (packet ++ take n bytes) c.result
                (ground (arith, more)) (with_header-ready to_string c.after c.ready) c.ready c.ends
                c.known in
            record {
              added = take n bytes ++ rest.added;
              left = rest.left;
              result = rest.result;
              after = rest.after;
              returns =
                  fill_more fuel room n packet bytes res c.result r r0 c.after got refl c.returns
                    more
                  ∙ (rest.returns
                      ∙ ap (λ xs. (xs, (rest.left, (rest.result, rest.after))))
                          (append_assoc packet (take n bytes) rest.added));
              ready = rest.ready;
              order =
                  append_assoc (take n bytes) rest.added (unread rest.after)
                  ∙ ap (λ xs. take n bytes ++ xs) rest.order
                  ∙ c.order;
              size =
                  omega (
                    arith,
                    rest.size,
                    length-append (take n bytes) rest.added,
                    length-take n bytes,
                  );
              ends = rest.ends;
              full = rest.full;
              known = rest.known;
            }
        | inr stop ↦ record {
          added = [];
          left = room;
          result = res;
          after = r0;
          returns =
              fill_stop fuel room packet bytes res r r0 got stop
              ∙ (ap (λ xs. (xs, (room, (res, r0)))) (sym (append-nil packet)));
          ready = ready;
          order = refl;
          size = omega arith;
          full = elim (dec_lt 0 room) [
            | yes some_room ↦ inr (at_end (ground (arith, stop, some_room)))
            | no full ↦ inl (omega arith)
          ];
          ends = h;
          known = k;
        }
      ]
