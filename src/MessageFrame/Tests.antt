-- ===== src/MessageFrame/Tests.antt =====
-- A message with the time and the battery, added in the other order.
use sensor_libs.Prelude.{ℕ, ◌≡◌, refl, Option, none, some, List, [], ◌∷◌}
use sensor_libs.MessageFrame.{
  timestamp_data, battery_data, fusion_data, position, FrameMessageBuilder, new_builder, add,
  finish, message, absent, got, get_frame_message_data,
}
use sensor_libs.MessageFrame.RoundTrip.{Built, started, added, get-message}

abbrev time : List ℕ
time = 1 ∷ 2 ∷ 3 ∷ 4 ∷ 5 ∷ 6 ∷ 7 ∷ 8 ∷ []

abbrev charge : List ℕ
charge = 9 ∷ 8 ∷ 7 ∷ 6 ∷ []

-- `add`, where the builder is not finished.
or_same : FrameMessageBuilder → Option FrameMessageBuilder → FrameMessageBuilder
or_same b none = b
or_same b (some b') = b'

abbrev with_charge : FrameMessageBuilder
with_charge = or_same new_builder (add new_builder battery_data charge)

abbrev with_both : FrameMessageBuilder
with_both = or_same with_charge (add with_charge timestamp_data time)

abbrev both : List (Option (List ℕ))
both = none ∷ some time ∷ none ∷ none ∷ none ∷ none ∷ none ∷ none ∷ some charge ∷ []

both-Built : Built with_both both
unfolding or_same add new_builder position
both-Built =
    added timestamp_data time (added battery_data charge started refl refl refl) refl refl refl

get-message_example : get_frame_message_data (message (finish with_both)) timestamp_data ≡ got time
unfolding position
get-message_example = get-message with_both both timestamp_data both-Built

fusion_absent : get_frame_message_data (message (finish with_both)) fusion_data ≡ absent
unfolding position
fusion_absent = get-message with_both both fusion_data both-Built
