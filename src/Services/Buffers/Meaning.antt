-- ===== src/Services/Buffers/Meaning.antt =====
-- The frame that a message stands for: the words of a message are forgotten but for its bytes.
use mathlib.Core.HLevel.{Σ_prop_path}
use mathlib.Core.Quot
use mathlib.Core.Quot.{Quot, Quot-set}
use native.Mathlib.Bridge.{le_prop}
use native.Mathlib.Nat.{ℕ_set}
use kaonic_comm.Shared.{
  ℕ, zero, suc, ◌*◌, ◌^◌, ◌<◌, ◌≡◌, ap, List, [], ◌∷◌, arith, length, resize, length-resize,
  memcpy_whole, All, IsByte,
}
use kaonic_comm.Messages.{FrameMessage}
use kaonic_comm.Radio.{Frame}
use kaonic_comm.Services.Buffers.{word_bytes, buf_pack, buf_unpack}
use kaonic_comm.Services.Buffers.Laws.{length-word_bytes, word_bytes-IsByte, buf_pack-buf_unpack}

-- What the buffer held does not matter.
buf_pack_lem :
    (m : FrameMessage) (buffer : Frame) → buf_pack m buffer ≡ resize 0 m.size (word_bytes m.words)
unfolding buf_pack
buf_pack_lem m buffer = ap (resize 0 m.size) (
    memcpy_whole (resize 0 (length m.words * 4) buffer) (word_bytes m.words)
      (omega (arith, length-resize {0} 0 (length m.words * 4) buffer, length-word_bytes m.words)))

resize-IsByte : (n : ℕ) (bytes : List ℕ) → All IsByte bytes → All IsByte (resize 0 n bytes)
resize-IsByte zero bytes h = tt
resize-IsByte (suc n) [] h = (omega arith, resize-IsByte n [] h)
resize-IsByte (suc n) (b ∷ bytes) h = (h.0, resize-IsByte n bytes h.1)

-- A message of the service, whose size is a field of 32 bits, and a frame that fits one.
abbrev pub SizedMessage : Type 0
SizedMessage = (m : FrameMessage) × (m.size < 2 ^ 32)

abbrev pub SizedFrame : Type 0
SizedFrame = (f : Frame) × (All IsByte f × (length f < 2 ^ 32))

bytes_prop : (f : Frame) → IsProp (All IsByte f)
bytes_prop [] = hlevel
bytes_prop (b ∷ f) = hlevel (le_prop, bytes_prop f)

sized_prop : (f : Frame) → IsProp (All IsByte f × (length f < 2 ^ 32))
sized_prop f = hlevel (le_prop, bytes_prop f)

SizedFrame-set : IsSet SizedFrame
SizedFrame-set = hlevel (ℕ_set, sized_prop)

-- Two messages are the same when `buf_pack` makes the same frame of them.
abbrev pub SameFrame : SizedMessage → SizedMessage → Type 0
SameFrame m n = buf_pack m.0 [] ≡ buf_pack n.0 []

abbrev pub Meaning : Type 0
Meaning = Quot SameFrame

packed_sized :
    (m : SizedMessage) → All IsByte (buf_pack m.0 []) × (length (buf_pack m.0 []) < 2 ^ 32)
packed_sized m = rw (buf_pack_lem m.0 []) (
  resize-IsByte m.0.size (word_bytes m.0.words) (word_bytes-IsByte m.0.words),
  omega (arith, length-resize {0} 0 m.0.size (word_bytes m.0.words), m.1),
)

pub pack : Meaning → SizedFrame
pack =
    Quot.lift SizedFrame-set (λ m. (buf_pack m.0 [], packed_sized m))
      (λ m n same. Σ_prop_path sized_prop same)

unpacked_sized : (f : SizedFrame) (old : FrameMessage) → (buf_unpack f.0 old).size < 2 ^ 32
unfolding buf_unpack
unpacked_sized f old = omega arith

-- `buf_unpack` over the message `old`.
pub unpack : FrameMessage → SizedFrame → Meaning
unpack old f = Quot.mk (buf_unpack f.0 old, unpacked_sized f old)

-- Up to the frames that they stand for, messages are frames: over whatever message `buf_unpack`
-- writes, `pack` and `unpack` are inverse to each other, so nothing of the old message is left in
-- what the new one stands for, and each message stands for a frame that unpacking would give.
pub pack-unpack :
    (old : FrameMessage)
    → ((f : SizedFrame) → pack (unpack old f) ≡ f) × ((m : Meaning) → unpack old (pack m) ≡ m)
unfolding pack unpack
pack-unpack old = (
  λ f. Σ_prop_path sized_prop (buf_pack-buf_unpack f.0 old [] f.1.0 f.1.1),
  Quot.ind (λ m. Quot-set _ _)
      (λ m.
        Quot.sound
          (buf_pack-buf_unpack (buf_pack m.0 []) old [] (packed_sized m).0 (packed_sized m).1)),
)
