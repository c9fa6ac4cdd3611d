-- ===== src/Services/Buffers/Laws.antt =====
-- Packing undoes unpacking.
use kaonic_comm.Shared.{
  ℕ, zero, suc, ◌+◌, ◌*◌, ◌^◌, ◌≤◌, ◌<◌, ◌≡◌, refl, ap, List, [], ◌∷◌, arith, length, resize,
  memcpy, length-memcpy, length-resize, memcpy_whole, resize-memcpy, All, All-memcpy, IsByte, u32,
}
use kaonic_comm.Messages.{FrameMessage}
use kaonic_comm.Radio.{Frame}
use kaonic_comm.Services.Buffers.{
  word_bytes, bytes_words, word_count, buf_pack, buf_unpack, grpc_buf_pack, grpc_buf_unpack,
}

pub length-word_bytes : (ws : List ℕ) → length (word_bytes ws) ≡ length ws * 4
unfolding word_bytes
length-word_bytes [] = refl
length-word_bytes (w ∷ ws) = omega (arith, length-word_bytes ws)

pub word_bytes-IsByte : (ws : List ℕ) → All IsByte (word_bytes ws)
unfolding word_bytes
word_bytes-IsByte [] = tt
word_bytes-IsByte (w ∷ ws) =
    (omega arith, (omega arith, (omega arith, (omega arith, word_bytes-IsByte ws))))

-- A memory of whole words is had back from its words.
word_bytes-bytes_words :
    (n : ℕ) (bytes : List ℕ)
    → length bytes ≡ n * 4
    → All IsByte bytes
    → word_bytes (bytes_words bytes) ≡ bytes
unfolding word_bytes bytes_words
word_bytes-bytes_words zero [] h k = refl
word_bytes-bytes_words zero (a ∷ bytes) h k = absurd (omega arith)
word_bytes-bytes_words (suc n) (a ∷ b ∷ c ∷ d ∷ bytes) h k =
    ground (arith, word_bytes-bytes_words n bytes (omega arith) k.1.1.1.1)
word_bytes-bytes_words (suc n) [] h k = absurd (omega arith)
word_bytes-bytes_words (suc n) (a ∷ []) h k = absurd (omega arith)
word_bytes-bytes_words (suc n) (a ∷ b ∷ []) h k = absurd (omega arith)
word_bytes-bytes_words (suc n) (a ∷ b ∷ c ∷ []) h k = absurd (omega arith)

length-bytes_words :
    (n : ℕ) (bytes : List ℕ) → length bytes ≡ n * 4 → length (bytes_words bytes) ≡ n
unfolding bytes_words
length-bytes_words zero [] h = refl
length-bytes_words zero (a ∷ bytes) h = absurd (omega arith)
length-bytes_words (suc n) (a ∷ b ∷ c ∷ d ∷ bytes) h =
    ap suc (length-bytes_words n bytes (omega arith))
length-bytes_words (suc n) [] h = absurd (omega arith)
length-bytes_words (suc n) (a ∷ []) h = absurd (omega arith)
length-bytes_words (suc n) (a ∷ b ∷ []) h = absurd (omega arith)
length-bytes_words (suc n) (a ∷ b ∷ c ∷ []) h = absurd (omega arith)

-- The words of a message hold its bytes and at most three more.
word_count_bounds : (size : ℕ) → (size ≤ word_count size * 4) × (word_count size * 4 < size + 4)
unfolding word_count
word_count_bounds size = ground arith

-- The memory of the words that `buf_unpack` stores.
module _ (src : Frame) (old : List ℕ) where
  stored : List ℕ
  stored = memcpy (word_bytes (resize 0 (word_count (length src)) old)) src

  length-stored : length stored ≡ word_count (length src) * 4
  unfolding stored
  length-stored = omega (
    arith,
    length-memcpy (word_bytes (resize 0 (word_count (length src)) old)) src,
    length-word_bytes (resize 0 (word_count (length src)) old),
    length-resize {0} 0 (word_count (length src)) old,
  )

  stored-IsByte : All IsByte src → All IsByte stored
  unfolding stored
  stored-IsByte = All-memcpy IsByte _ src (word_bytes-IsByte _)

  resize-stored : resize 0 (length src) stored ≡ src
  unfolding stored
  resize-stored = resize-memcpy 0 (word_bytes (resize 0 (word_count (length src)) old)) src (
      omega (
        arith,
        length-word_bytes (resize 0 (word_count (length src)) old),
        length-resize {0} 0 (word_count (length src)) old,
        word_count_bounds (length src),
      ))

-- Copying the words of a memory over a buffer of their size gives the memory.
memcpy-bytes_words :
    (n : ℕ) (bytes buffer : List ℕ)
    → length bytes ≡ n * 4
    → All IsByte bytes
    → memcpy (resize 0 (length (bytes_words bytes) * 4) buffer) (word_bytes (bytes_words bytes))
      ≡ bytes
memcpy-bytes_words n bytes buffer h k = rw (word_bytes-bytes_words n bytes h k) (
    memcpy_whole _ bytes (
      omega (
        arith,
        length-resize {0} 0 (length (bytes_words bytes) * 4) buffer,
        length-bytes_words n bytes h,
      )))

buf_unpack-stored :
    (src : Frame) (message : FrameMessage)
    → buf_unpack src message
      ≡ record { words = bytes_words (stored src message.words); size = u32 (length src) }
unfolding buf_unpack stored
buf_unpack-stored src message = refl

module _ (src : Frame) (message : FrameMessage) (buffer : Frame) where
  -- `buf_pack` gives back the bytes that `buf_unpack` put into a message, whatever the message
  -- and the buffer held before, for a frame of bytes whose size fits the field of 32 bits.
  pub buf_pack-buf_unpack :
      All IsByte src → length src < 2 ^ 32 → buf_pack (buf_unpack src message) buffer ≡ src
  unfolding buf_pack
  buf_pack-buf_unpack bytes fits = rw (buf_unpack-stored src message) (
      rw
        (memcpy-bytes_words _ (stored src message.words) buffer (length-stored src message.words)
          (stored-IsByte src message.words bytes))
        (rw u32_fits (resize-stored src message.words)))
    where
      u32_fits : u32 (length src) ≡ length src
      u32_fits = omega arith

  -- So do the copies of the two in the gRPC service.
  pub grpc_buf_pack-grpc_buf_unpack :
      All IsByte src
      → length src < 2 ^ 32
      → grpc_buf_pack (grpc_buf_unpack src message) buffer ≡ src
  unfolding grpc_buf_pack grpc_buf_unpack buf_pack buf_unpack
  grpc_buf_pack-grpc_buf_unpack bytes fits = buf_pack-buf_unpack bytes fits

-- The number of words that `buf_unpack` stores is the size in words, rounded up.
pub length-buf_unpack :
    (src : Frame) (message : FrameMessage)
    → let n = length (buf_unpack src message).words in
      (length src ≤ n * 4) × (n * 4 < length src + 4)
unfolding buf_unpack stored
length-buf_unpack src message = omega (
  arith,
  length-bytes_words (word_count (length src)) (stored src message.words)
      (length-stored src message.words),
  word_count_bounds (length src),
)
