-- ===== src/Services/Buffers/Tests.antt =====
-- Instances of the packing laws, with a message that held another frame before.
use kaonic_comm.Shared.{◌≡◌, refl, [], ◌∷◌}
use kaonic_comm.Messages.{FrameMessage}
use kaonic_comm.Radio.{Frame}
use kaonic_comm.Services.Buffers.Meaning.{SizedFrame, Meaning, pack, unpack, pack-unpack}
use kaonic_comm.Services.Buffers.{buf_unpack, word_count, word_bytes, bytes_words}

abbrev six_bytes : Frame
six_bytes = 1 ∷ 2 ∷ 3 ∷ 4 ∷ 5 ∷ 6 ∷ []

abbrev used_message : FrameMessage
used_message = record { words = 0xffff_ffff ∷ 0xaabb_ccdd ∷ 7 ∷ []; size = 12 }

-- The two bytes behind the frame are those of the message before.
buf_unpack_keeps_old_bytes :
    buf_unpack six_bytes used_message ≡ record { words = 0x0403_0201 ∷ 0xaabb_0605 ∷ []; size = 6 }
unfolding buf_unpack word_count word_bytes bytes_words
buf_unpack_keeps_old_bytes = refl

pack-unpack_example :
    ((f : SizedFrame) → pack (unpack used_message f) ≡ f)
    × ((m : Meaning) → unpack used_message (pack m) ≡ m)
pack-unpack_example = pack-unpack used_message
