-- ===== src/HttpPayload/File.antt =====
-- lib_http/http_payload_file.h: a payload that another task fills from a file through a
-- `SequentialBuffer`. The file and its `open`, which starts that task, are template parameters: here the
-- size that `FileT` reports. A transition of `Reaches` is one call of either task, or the client's copy.
use sensor_libs.Prelude.{
  ℕ, ◌+◌, ◌<◌, ◌≤◌, ◌≡◌, ◌≢◌, ◌↔◌, refl, ap, ap₂, sym, ◌∙◌, subst, false, Option, none, some, List,
  [], ◌∷◌, ◌++◌, append_assoc, append-nil, length, length-append, length-take, length-drop, take,
  take_of_append, drop, slice, min, add64, word64, arith, nil_of_length,
}
use sensor_libs.SequentialBuffer.{
  Buffer, Status, ok, failed, aborted, size, capacity, create, available_size, write, request_read,
  commit_read,
}
use sensor_libs.SequentialBuffer.Contents.{contents, IsValid, length-contents}
use sensor_libs.SequentialBuffer.Read.{available_bounds}
use sensor_libs.SequentialBuffer.Stream.{
  Keeps, puts, takes, step, step-Keeps, create-IsValid, accepted_of,
}
use sensor_libs.HttpPayload.Delivery.{at_end_iff}
use sensor_libs.HttpPayload.{HttpResult, complete, incomplete, at_end}
pub mod Pointers
pub mod Sending

pub record PayloadFile (FileT : Type 0) : Type 0 where
  pub buffer : Buffer
  pub file : FileT
  pub transferred_bytes : ℕ

-- Where a client is between its calls: without a pointer, with one to a number of bytes, or with bytes that it has
-- copied into a packet and will commit.
pub data Client : Type 0 where
  idle : Client
  pointed : ℕ → ℕ → Client
  copied : List ℕ → Client

module _ {FileT : Type 0} where
  -- The constructor. The storage of the buffer is not initialised.
  unfoldable pub new_file_payload : List ℕ → FileT → PayloadFile FileT
  new_file_payload storage opened = record {
    buffer = create storage;
    file = opened;
    transferred_bytes = 0;
  }

  -- The wait is 0, so no outcome of it matters.
  unfoldable pub file_read_ptr : PayloadFile FileT → Status × Option (ℕ × ℕ)
  file_read_ptr p = request_read p.buffer 0 false

module _ {FileT : Type 0} (file_size : FileT → ℕ) where
  unfoldable pub file_payload_size : PayloadFile FileT → ℕ
  file_payload_size p = file_size p.file

  unfoldable pub commit_file_read : PayloadFile FileT → ℕ → HttpResult × PayloadFile FileT
  unfolding at_end
  commit_file_read p data_size =
      let transferred = add64 p.transferred_bytes data_size in
      (
        at_end transferred (file_size p.file),
        record p { buffer = (commit_read p.buffer data_size).1; transferred_bytes = transferred },
      )

  -- Of a file with the bytes `content`, some are committed, and `rest` has not reached the buffer. As in
  -- `write_http_response_to_socket`, the client asks for a pointer, copies bytes only where it got some, and commits
  -- as many as it copied; where the packet is full it drops the pointer. Between any two of these calls the other
  -- task may write.
  pub data Reaches (content : List ℕ) : PayloadFile FileT → Client → List ℕ → List ℕ → Type 0 where
    opens :
        (storage : List ℕ) (opened : FileT)
        → length storage ≡ 2048
        → file_size opened ≡ length content
        → Reaches content (new_file_payload storage opened) idle [] content
    fills :
        {p : PayloadFile FileT} {client : Client} {sent : List ℕ} (bytes rest : List ℕ)
        → Reaches content p client sent (bytes ++ rest)
        → (write p.buffer bytes).0 ≡ ok
        → Reaches content (record p { buffer = (write p.buffer bytes).1 }) client sent rest
    refuses :
        {p : PayloadFile FileT} {client : Client} {sent rest : List ℕ} (bytes : List ℕ)
        → Reaches content p client sent rest
        → (write p.buffer bytes).0 ≢ ok
        → Reaches content (record p { buffer = (write p.buffer bytes).1 }) client sent rest
    asks :
        {p : PayloadFile FileT} {sent rest : List ℕ} (pos n : ℕ)
        → Reaches content p idle sent rest
        → file_read_ptr p ≡ (ok, some (pos, n))
        → Reaches content p (pointed pos n) sent rest
    drops :
        {p : PayloadFile FileT} {sent rest : List ℕ} {pos n : ℕ}
        → Reaches content p (pointed pos n) sent rest
        → Reaches content p idle sent rest
    copies :
        {p : PayloadFile FileT} {sent rest : List ℕ} {pos n : ℕ} (count : ℕ)
        → Reaches content p (pointed pos n) sent rest
        → 0 < count
        → count ≤ n
        → Reaches content p (copied (slice p.buffer.cells pos count)) sent rest
    commits :
        {p : PayloadFile FileT} {sent rest : List ℕ} {bytes : List ℕ}
        → Reaches content p (copied bytes) sent rest
        → Reaches content (commit_file_read p (length bytes)).1 idle (sent ++ bytes) rest
