-- ===== src/SequentialBuffer/Tests.antt =====
-- Runs of lib_util/sequential_buffer.h on a buffer of four bytes, and the theorems at them.
use sensor_libs.Prelude.{◌≡◌, refl, false, [], ◌∷◌, arith, drop, ◌++◌}
use sensor_libs.SequentialBuffer.{
  Buffer, ok, capacity, write, commit_read, request_read, write_around, write_before, notify,
}
use sensor_libs.SequentialBuffer.Contents.{contents, IsValid}
use sensor_libs.SequentialBuffer.Write.{put, write_refines}
use sensor_libs.SequentialBuffer.Read.{commit_read_drops}
use sensor_libs.SequentialBuffer.Stream.{puts, takes, step, run, run_stream}

-- 7 and 8 at the end of the storage, 9 at its front.
abbrev wrapped : Buffer
wrapped = record {
  cells = 9 ∷ 0 ∷ 7 ∷ 8 ∷ [];
  read_pos = 2;
  write_pos = 1;
  free_bytes = 1;
  watermark_bytes = 1;
  event_set = false;
}

wrapped-IsValid : IsValid wrapped
wrapped-IsValid = omega arith

contents-wrapped : contents wrapped ≡ 7 ∷ 8 ∷ 9 ∷ []
unfolding contents
contents-wrapped = refl

run-wrapped :
    (run wrapped (puts (5 ∷ []) ∷ puts (6 ∷ []) ∷ takes 3 ∷ takes 9 ∷ [])).received
    ≡ 7 ∷ 8 ∷ 9 ∷ 5 ∷ []
unfolding run step write write_around write_before notify request_read commit_read
run-wrapped = refl

write_refines_example :
    let (s, b') = write wrapped (5 ∷ []) in
    ((s, contents b') ≡ put 4 (contents wrapped) (5 ∷ [])) × IsValid b' × (capacity b' ≡ 4)
write_refines_example = write_refines wrapped (5 ∷ []) wrapped-IsValid

commit_read_drops_example :
    let (r, b') = commit_read wrapped 1 in
    (r ≡ ok) × (contents b' ≡ drop 1 (contents wrapped)) × IsValid b' × (capacity b' ≡ 4)
unfolding request_read
commit_read_drops_example =
    commit_read_drops wrapped 0 false ok 2 2 1 wrapped-IsValid refl (omega arith)

run_stream_example :
    let t = run wrapped (puts (5 ∷ []) ∷ takes 3 ∷ []) in
    (t.received ++ contents t.buffer ≡ contents wrapped ++ t.accepted)
    × IsValid t.buffer
    × (capacity t.buffer ≡ 4)
run_stream_example = run_stream wrapped (puts (5 ∷ []) ∷ takes 3 ∷ []) wrapped-IsValid
