-- ===== src/Services/Buffers.antt =====
-- buf_pack and buf_unpack of serial_service.cpp, and their copies in grpc_service.cpp: a frame of
-- bytes as the 32-bit words of a protobuf message. The words are little-endian.
pub mod Laws
pub mod Meaning
mod Tests
use kaonic_comm.Shared.{
  ℕ, ◌+◌, ◌-◌, ◌*◌, ◌/◌, ◌%◌, ◌==◌, if◌then◌else◌, List, [], ◌∷◌, length, resize, memcpy, u32,
}
use kaonic_comm.Messages.{FrameMessage}
use kaonic_comm.Radio.{Frame}

-- The memory of an array of words, and the words in some memory.
pub word_bytes : List ℕ → List ℕ
word_bytes [] = []
word_bytes (w ∷ ws) = w % 256 ∷ w / 256 % 256 ∷ w / 65536 % 256 ∷ w / 16777216 % 256 ∷ word_bytes ws

pub bytes_words : List ℕ → List ℕ
bytes_words (a ∷ b ∷ c ∷ d ∷ bytes) = (a + 256 * b + 65536 * c + 16777216 * d) ∷ bytes_words bytes
bytes_words _ = []

-- `buf_pack(src, dst)`: the new `dst`.
unfoldable pub buf_pack : FrameMessage → Frame → Frame
buf_pack src dst =
    resize 0 src.size (memcpy (resize 0 (length src.words * 4) dst) (word_bytes src.words))

-- `data.Resize(dst_size, 0)`, and the words behind it are those of the message before.
pub word_count : ℕ → ℕ
word_count size = let whole = size / 4 in whole + (if size - whole * 4 == 0 then 0 else 1)

-- `buf_unpack(src, dst)`: the new `dst`.
unfoldable pub buf_unpack : Frame → FrameMessage → FrameMessage
unfolding word_count
buf_unpack src dst =
    let words = resize 0 (word_count (length src)) dst.words in
    record { words = bytes_words (memcpy (word_bytes words) src); size = u32 (length src) }

unfoldable pub grpc_buf_pack : FrameMessage → Frame → Frame
grpc_buf_pack src dst =
    resize 0 src.size (memcpy (resize 0 (length src.words * 4) dst) (word_bytes src.words))

unfoldable pub grpc_buf_unpack : Frame → FrameMessage → FrameMessage
unfolding word_count
grpc_buf_unpack src dst =
    let words = resize 0 (word_count (length src)) dst.words in
    record { words = bytes_words (memcpy (word_bytes words) src); size = u32 (length src) }
