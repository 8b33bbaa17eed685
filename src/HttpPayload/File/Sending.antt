-- ===== src/HttpPayload/File/Sending.antt =====
-- lib_http/http_payload_file.h: what the client of a file gets.
use sensor_libs.Prelude.{
  ℕ, false, take-append-drop, ◌+◌, ◌<◌, ◌≡◌, ◌≢◌, ◌↔◌, refl, ap, ap₂, sym, ◌∙◌, List, [], ◌++◌,
  append_assoc, append-nil, length, length-append, take, take_of_append, word64, arith,
  nil_of_length,
}
use sensor_libs.SequentialBuffer.{
  Status, ok, failed, commit_read, aborted, size, available_size, write, request_read,
}
use sensor_libs.SequentialBuffer.Contents.{contents, IsValid, length-contents}
use sensor_libs.SequentialBuffer.Read.{available_bounds, commit_read_drops}
use sensor_libs.SequentialBuffer.Stream.{puts, step, step-Keeps, create-IsValid, accepted_of}
use sensor_libs.HttpPayload.Delivery.{at_end_iff}
use sensor_libs.HttpPayload.{complete}
use sensor_libs.HttpPayload.File.{
  PayloadFile, Client, idle, copied, new_file_payload, file_read_ptr, commit_file_read, Reaches,
  opens, fills, refuses, asks, drops, copies, commits,
}
use sensor_libs.HttpPayload.File.Pointers.{InHand, InHand-write, InHand-copy}

accepted_of-refused : (s : Status) (bytes : List ℕ) → s ≢ ok → accepted_of s bytes ≡ []
unfolding accepted_of
accepted_of-refused ok bytes h = absurd (h refl)
accepted_of-refused failed bytes h = refl
accepted_of-refused aborted bytes h = refl

module _ {FileT : Type 0} (file_size : FileT → ℕ) where
  record IsSending (content : List ℕ) (p : PayloadFile FileT) (client : Client) (sent rest : List ℕ)
      : Type 0 where
    valid : IsValid p.buffer
    order : sent ++ (contents p.buffer ++ rest) ≡ content
    counted : p.transferred_bytes ≡ length sent
    sized : file_size p.file ≡ length content
    in_hand : InHand client p.buffer

  module _ (content : List ℕ) (small : length content < word64) where
    length-content :
        {p : PayloadFile FileT} {client : Client} {sent rest : List ℕ}
        → IsSending content p client sent rest
        → length sent + (size p.buffer + length rest) ≡ length content
    length-content {p} {client} {sent} {rest} i = omega (
      arith,
      ap length i.order,
      length-append sent (contents p.buffer ++ rest),
      length-append (contents p.buffer) rest,
      length-contents p.buffer,
    )

    commit-IsSending :
        {p : PayloadFile FileT} {sent rest bytes : List ℕ}
        → IsSending content p (copied bytes) sent rest
        → IsSending content
            (commit_file_read file_size p (length bytes)).1
            idle
            (sent ++ bytes)
            rest
    unfolding commit_file_read request_read
    commit-IsSending {p} {sent} {rest} {bytes} i =
        let b = p.buffer in
        let after = (commit_read b (length bytes)).1 in
        let bounds = available_bounds b i.valid in
        let done =
          commit_read_drops b 0 false _ b.read_pos (available_size b) (length bytes) i.valid refl
            i.in_hand.1 in
        let parts : bytes ++ contents after ≡ contents b =
          ap₂ ◌++◌ i.in_hand.2 done.1 ∙ take-append-drop (length bytes) (contents b) in
        record {
          valid = done.2;
          order =
              append_assoc sent bytes (contents after ++ rest)
              ∙ ap (◌++◌ sent) (sym (append_assoc bytes (contents after) rest))
              ∙ ap (λ xs. sent ++ (xs ++ rest)) parts
              ∙ i.order;
          counted = omega (
            arith,
            i.counted,
            i.in_hand.1,
            bounds,
            small,
            length-content i,
            length-append sent bytes,
          );
          sized = i.sized;
          in_hand = tt;
        }

    -- What a write adds to the buffer comes out behind what the buffer held.
    write-IsSending :
        {p : PayloadFile FileT} {client : Client} {sent all : List ℕ} (bytes rest added : List ℕ)
        → IsSending content p client sent all
        → accepted_of (write p.buffer bytes).0 bytes ≡ added
        → added ++ rest ≡ all
        → IsSending content (record p { buffer = (write p.buffer bytes).1 }) client sent rest
    unfolding step
    write-IsSending {p} {client} {sent} bytes rest added i e split =
        let keeps = step-Keeps p.buffer (puts bytes) i.valid in
        let grown : contents (write p.buffer bytes).1 ≡ contents p.buffer ++ added =
          keeps.order ∙ ap (◌++◌ (contents p.buffer)) e in
        record {
          valid = keeps.stays;
          order =
              ap (λ xs. sent ++ (xs ++ rest)) grown
              ∙ ap (◌++◌ sent) (
                  append_assoc (contents p.buffer) added rest ∙ ap (◌++◌ (contents p.buffer)) split)
              ∙ i.order;
          counted = i.counted;
          sized = i.sized;
          in_hand = InHand-write client p.buffer bytes added i.valid grown i.in_hand;
        }

    Reaches-IsSending :
        {p : PayloadFile FileT} {client : Client} {sent rest : List ℕ}
        → Reaches file_size content p client sent rest
        → IsSending content p client sent rest
    unfolding new_file_payload file_read_ptr request_read accepted_of
    Reaches-IsSending (opens storage opened big sized) = record {
      valid = (create-IsValid storage (omega (arith, big))).0;
      order = ap (λ xs. xs ++ content) (create-IsValid storage (omega (arith, big))).1;
      counted = refl;
      sized = sized;
      in_hand = tt;
    }
    Reaches-IsSending (fills bytes rest r accepted) =
        write-IsSending bytes rest bytes (Reaches-IsSending r)
          (ap (λ s. accepted_of s bytes) accepted) refl
    Reaches-IsSending (refuses {rest = rest} bytes r refused) =
        write-IsSending bytes rest [] (Reaches-IsSending r) (accepted_of-refused _ bytes refused)
          refl
    Reaches-IsSending (asks {p} pos n r got) =
        let i = Reaches-IsSending r in
        record {
          valid = i.valid;
          order = i.order;
          counted = i.counted;
          sized = i.sized;
          in_hand = (ground (arith, got), ground (arith, got));
        }
    Reaches-IsSending (drops r) =
        let i = Reaches-IsSending r in
        record {
          valid = i.valid;
          order = i.order;
          counted = i.counted;
          sized = i.sized;
          in_hand = tt;
        }
    Reaches-IsSending (copies {p} {pos = pos} {n} count r some_bytes l) =
        let i = Reaches-IsSending r in
        record {
          valid = i.valid;
          order = i.order;
          counted = i.counted;
          sized = i.sized;
          in_hand = InHand-copy p.buffer pos n count i.valid i.in_hand some_bytes l;
        }
    Reaches-IsSending (commits r) = commit-IsSending (Reaches-IsSending r)

    nil_of_append : (xs ys : List ℕ) → length (xs ++ ys) ≡ length xs → ys ≡ []
    nil_of_append xs ys e = nil_of_length ys (omega (arith, e, length-append xs ys))

    -- A pointer is given just where the buffer holds something.
    pointer_iff :
        (p : PayloadFile FileT)
        → IsValid p.buffer
        → ((file_read_ptr p).0 ≡ ok) ↔ (0 < length (contents p.buffer))
    unfolding file_read_ptr request_read
    pointer_iff p v =
        let bounds = available_bounds p.buffer v in
        let len = length-contents p.buffer in
        ((λ e. ground (arith, e, bounds, len)), λ h. ground (arith, h, bounds, len))

    -- For a file of fewer than 2 ^ 64 bytes: however the writing task and a client take turns, also with writes
    -- between the pointer that a client gets, its copy and its commit, when the client commits what it copied, the
    -- bytes committed are the first of the file, in order, and at least one more than before; the commit
    -- returns `Complete` just when they are the whole file; and then a pointer is given just where the buffer holds
    -- something.
    pub send_file :
        (p : PayloadFile FileT) (sent rest bytes : List ℕ)
        → Reaches file_size content p (copied bytes) sent rest
        → let (result, p') = commit_file_read file_size p (length bytes) in
          (take (length (sent ++ bytes)) content ≡ sent ++ bytes)
          × (0 < length bytes)
          × ((result ≡ complete) ↔ (sent ++ bytes ≡ content))
          × (((file_read_ptr p').0 ≡ ok) ↔ (0 < length (contents p'.buffer)))
    unfolding commit_file_read
    send_file p sent rest bytes reached =
        let all = sent ++ bytes in
        let before = Reaches-IsSending reached in
        let i = commit-IsSending before in
        let p' = (commit_file_read file_size p (length bytes)).1 in
        let tail = contents p'.buffer ++ rest in
        let end = at_end_iff p'.transferred_bytes (file_size p.file) in
        (
          ap (take (length all)) (sym i.order) ∙ take_of_append all tail,
          before.in_hand.0,
          (
            (λ done.
                let none_left =
                  nil_of_append all tail
                    (ap length i.order ∙ sym before.sized ∙ sym (end.0 done) ∙ i.counted) in
                sym (append-nil all) ∙ ap (◌++◌ all) (sym none_left) ∙ i.order),
            λ same. end.1 (i.counted ∙ ap length same ∙ sym before.sized),
          ),
          pointer_iff p' i.valid,
        )

  -- Of an empty file nothing is ever copied, so that no commit tells that it is complete.
  empty_file_waits :
      (p : PayloadFile FileT) (sent rest bytes : List ℕ)
      → ¬ Reaches file_size [] p (copied bytes) sent rest
  empty_file_waits p sent rest bytes reached =
      let before = Reaches-IsSending [] (omega arith) reached in
      let bounds = available_bounds p.buffer before.valid in
      omega (arith, before.in_hand, length-content [] (omega arith) before, bounds)
