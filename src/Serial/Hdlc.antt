-- ===== src/Serial/Hdlc.antt =====
-- kaonic/src/comm/serial/hdlc.cpp: byte stuffing, its inverse, and the frame detector.
pub mod RoundTrip
pub mod Detector
mod Tests
use Prim.Native.Nat.{bit_xor}
use kaonic_comm.Shared.{
  ℕ, ◌+◌, Bool, true, false, not, ◌&&◌, List, [], ◌∷◌, ◌++◌, ltb, ◌==◌, if◌then◌else◌, length,
}

abbrev pub flag : ℕ
flag = 0x7e

abbrev pub hdlc_esc : ℕ
hdlc_esc = 0x7d

abbrev pub hdlc_esc_mask : ℕ
hdlc_esc_mask = 0x20

-- What the loop of `hdlc::escape` pushes for the bytes.
pub escape_bytes : List ℕ → List ℕ
escape_bytes [] = []
escape_bytes (byte ∷ bytes) =
    let rest = escape_bytes bytes in
    if byte == hdlc_esc
    then hdlc_esc ∷ bit_xor hdlc_esc hdlc_esc_mask ∷ rest
    else if byte == flag
    then hdlc_esc ∷ bit_xor flag hdlc_esc_mask ∷ rest
    else byte ∷ rest

unfoldable pub escape : List ℕ → List ℕ
unfolding escape_bytes
escape input = flag ∷ (escape_bytes input ++ flag ∷ [])

-- The byte that `hdlc::unescape` pushes after an escape character: the two tests run in turn, and
-- the second one sees what the first one stored.
pub unmask : ℕ → ℕ
unmask byte =
    let byte' = if byte == bit_xor flag hdlc_esc_mask then flag else byte in
    if byte' == bit_xor hdlc_esc hdlc_esc_mask then hdlc_esc else byte'

-- The loop of `hdlc::unescape` from the given `in_frame` and `escape`: what it pushes.
pub unescape_from : Bool → Bool → List ℕ → List ℕ
unfolding unmask
unescape_from in_frame escape [] = []
unescape_from in_frame escape (byte ∷ bytes) =
    let opened = unescape_from true escape bytes in
    let escaped = unescape_from in_frame true bytes in
    let pushed = unescape_from in_frame false bytes in
    let skipped = unescape_from in_frame escape bytes in
    if in_frame && byte == flag
    then []
    else if byte == flag
    then opened
    else if in_frame
    then if byte == hdlc_esc then escaped else (if escape then unmask byte else byte) ∷ pushed
    else skipped

unfoldable pub unescape : List ℕ → List ℕ
unfolding unescape_from
unescape input = unescape_from false false input

-- `hdlc_processor`
pub record Processor : Type 0 where
  pub max_hdlc_size : ℕ
  pub in_frame : Bool

unfoldable pub processor : ℕ → Processor
processor max_hdlc_size = record { max_hdlc_size = max_hdlc_size; in_frame = false }

-- The result of `update`: the detector, the output buffer, and whether a frame is complete.
abbrev pub Updated : Type 0
Updated = Processor × List ℕ × Bool

-- `if (!_in_frame && element == flag) …`: a flag outside a frame clears the buffer and opens one.
pub open_frame : Processor → ℕ → List ℕ → Processor × List ℕ
open_frame p element output =
    if not p.in_frame && element == flag then (record p { in_frame = true }, []) else (p, output)

-- The rest of `update`: a flag in a frame ends it, any other byte is collected.
pub collect : Processor → ℕ → List ℕ → Updated
collect p element output =
    if p.in_frame && element == flag
    then (record p { in_frame = false }, output ++ flag ∷ [], true)
    else if p.in_frame
    then (p, output ++ element ∷ [], false)
    else (p, output, false)

unfoldable pub update : Processor → ℕ → List ℕ → Updated
unfolding open_frame collect
update p element output =
    if p.in_frame && ltb p.max_hdlc_size (length output + 1)
    then (record p { in_frame = false }, [], false)
    else let (p', output') = open_frame p element output in collect p' element output'

-- Feed bytes one by one: the final state, and the buffers that were complete on the way.
unfoldable pub update_all : Processor → List ℕ → List ℕ → Processor × List ℕ × List (List ℕ)
update_all p output [] = (p, output, [])
update_all p output (element ∷ elements) =
    let (p', output', done) = update p element output in
    let (last, buffer, frames) = update_all p' output' elements in
    (last, buffer, if done then output' ∷ frames else frames)
