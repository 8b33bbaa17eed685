-- ===== src/MessageFrame.antt =====
-- lib_message/message_frame.h, message_frame.cpp: messages with optional parts. The data of a part is
-- the bytes of its struct; a `float` is four of them.
use sensor_libs.Prelude.{
  ℕ, zero, suc, ◌+◌, ◌*◌, ◌-◌, ◌^◌, ◌%◌, ◌/◌, Bool, true, false, Option, none, some, List, [], ◌∷◌,
  ◌++◌, length, drop, take, slice, set, replicate, blit, ltb, leb, ◌==◌, if◌then◌else◌,
}
use sensor_libs.Prelude.Bytes.{le, from_le}
pub mod Compact
pub mod Parse
pub mod RoundTrip
mod Tests

-- The structs, in the order of `feature_id`, which is 2 to the power of the position.
pub data Feature : Type 0 where
  sensor_meta_data timestamp_data low_noise_imu_data high_range_imu_data extreme_range_acc_data :
      Feature
  barometer_data magnetometer_data fusion_data battery_data : Feature

unfoldable pub position : Feature → ℕ
position sensor_meta_data = 0
position timestamp_data = 1
position low_noise_imu_data = 2
position high_range_imu_data = 3
position extreme_range_acc_data = 4
position barometer_data = 5
position magnetometer_data = 6
position fusion_data = 7
position battery_data = 8

abbrev pub all_feature_sizes : List ℕ
all_feature_sizes = 8 ∷ 8 ∷ 24 ∷ 24 ∷ 12 ∷ 8 ∷ 12 ∷ 16 ∷ 4 ∷ []

abbrev pub header_size : ℕ
header_size = 4

unfoldable pub sizes_before : ℕ → List ℕ → ℕ
sizes_before zero ns = 0
sizes_before (suc i) [] = 0
sizes_before (suc i) (n ∷ ns) = n + sizes_before i ns

-- `FrameMessageOffset`.
unfoldable pub offset : Feature → ℕ
unfolding sizes_before position
offset f = header_size + sizes_before (position f) all_feature_sizes

-- A mask is the list of its bits for the features, from the lowest one on; its other bits are never
-- set. This is the word.
unfoldable pub mask_word : List Bool → ℕ
mask_word [] = 0
mask_word (true ∷ bits) = 1 + 2 * mask_word bits
mask_word (false ∷ bits) = 2 * mask_word bits

-- The lowest bits of a word.
unfoldable pub word_mask : ℕ → ℕ → List Bool
word_mask zero word = []
word_mask (suc n) word = (word % 2 == 1) ∷ word_mask n (word / 2)

pub record FrameMessageBuilder : Type 0 where
  pub feature_mask : List Bool
  pub message_size : ℕ
  pub buffer : List ℕ
  pub finished : Bool

-- The constructor; `clear` gives the same, whatever was there before.
unfoldable pub new_builder : FrameMessageBuilder
new_builder = record {
  feature_mask = replicate 9 false;
  message_size = header_size;
  buffer = replicate 512 0;
  finished = false;
}

-- `none` is the result -1, which leaves the builder as it is.
unfoldable pub add : FrameMessageBuilder → Feature → List ℕ → Option FrameMessageBuilder
unfolding offset position
add b f data_bytes =
    if b.finished
    then none
    else some (record b {
      feature_mask = set b.feature_mask (position f) true;
      message_size = (b.message_size + length data_bytes) % 2 ^ 32;
      buffer = blit b.buffer (offset f) data_bytes;
    })

-- The loop of `finish`: the bytes behind a part that is not there are moved onto it.
unfoldable pub compact : List Bool → List ℕ → ℕ → List ℕ → List ℕ
compact [] ns pos buffer = buffer
compact (m ∷ ms) [] pos buffer = buffer
compact (true ∷ ms) (n ∷ ns) pos buffer = compact ms ns (pos + n) buffer
compact (false ∷ ms) (n ∷ ns) pos buffer =
    compact ms ns pos (blit buffer pos (drop (pos + n) buffer))

unfoldable pub header : FrameMessageBuilder → List ℕ
unfolding mask_word
header b = le 2 (b.message_size % 2 ^ 16) ++ le 2 (mask_word b.feature_mask)

unfoldable pub finish : FrameMessageBuilder → FrameMessageBuilder
unfolding compact header
finish b = if b.finished then b else record b {
  buffer = blit (compact b.feature_mask all_feature_sizes header_size b.buffer) 0 (header b);
  finished = true;
}

-- The bytes that are sent: `get_buffer_pointer`, as many as `get_size` says.
unfoldable pub message : FrameMessageBuilder → List ℕ
message b = take b.message_size b.buffer

-- What `get_frame_message_data` does: it returns -1, it reads past the end of the buffer, or it returns
-- 0 with the data.
pub data Got : Type 0 where
  absent outside : Got
  got : List ℕ → Got

-- The loop, at the feature with the position `k`.
unfoldable pub get_loop : ℕ → ℕ → List Bool → List ℕ → ℕ → List ℕ → Got
get_loop target k [] ns pos buffer = absent
get_loop target k (m ∷ ms) [] pos buffer = absent
get_loop target k (false ∷ ms) (n ∷ ns) pos buffer =
    if leb (length buffer) pos then absent else get_loop target (suc k) ms ns pos buffer
get_loop target k (true ∷ ms) (n ∷ ns) pos buffer =
    if leb (length buffer) pos
    then absent
    else (if k == target
        then (if leb (pos + n) (length buffer) then got (slice buffer pos n) else outside)
        else get_loop target (suc k) ms ns (pos + n) buffer)

unfoldable pub get_frame_message_data : List ℕ → Feature → Got
unfolding get_loop word_mask position
get_frame_message_data buffer f =
    get_loop (position f) 0 (word_mask 9 (from_le (slice buffer 2 2))) all_feature_sizes header_size
      buffer
