-- ===== src/Mesh/Identity/Laws.antt =====
-- The id of a node as arithmetic: which bits come from the chip, and which from the network.
use Prim.Native.Nat.{bit_or}
use kaonic_comm.Shared.{
  ℕ, zero, suc, ◌+◌, ◌*◌, ◌/◌, ◌%◌, ◌^◌, ◌<◌, ◌≤◌, ◌≡◌, refl, ap, ap₂, pow_pos, ◌∙◌, some, List, [],
  ◌∷◌, arith, take, drop, replicate, memcpy, length, All, IsByte, All-memcpy, length-memcpy,
  clear_nibble, or_beside,
}
use kaonic_comm.Mesh.Identity.{shift_in, shift_in_all, generate_id, id_range, gen_id}

-- The number that bytes spell, the first one on top.
abbrev pub big_endian : ℕ → List ℕ → ℕ
big_endian value [] = value
big_endian value (byte ∷ bytes) = big_endian (256 * value + byte) bytes

shift_in_lem : (uid byte : ℕ) → uid < 2 ^ 56 → byte < 256 → shift_in uid byte ≡ 256 * uid + byte
unfolding shift_in
shift_in_lem uid byte h k =
    let whole : uid * 2 ^ 8 % 2 ^ 64 ≡ 256 * uid = omega arith in
    ap (λ n. bit_or n byte) whole ∙ or_beside 8 uid byte k

-- `m` shifted by so many bytes.
abbrev scaled : ℕ → ℕ → ℕ
scaled m zero = m
scaled m (suc n) = scaled (256 * m) n

le-scaled : (m n : ℕ) → m ≤ scaled m n
le-scaled m zero = omega arith
le-scaled m (suc n) = omega (arith, le-scaled (256 * m) n)

-- Each byte takes eight bits of the 64.
shift_in_all-big_endian :
    (uid m : ℕ) (bytes : List ℕ)
    → uid < m
    → scaled m (length bytes) ≤ 2 ^ 64
    → All IsByte bytes
    → shift_in_all uid bytes ≡ big_endian uid bytes
unfolding shift_in_all
shift_in_all-big_endian uid m [] h b k = refl
shift_in_all-big_endian uid m (byte ∷ bytes) h b k =
    let one = shift_in_lem uid byte (omega (arith, le-scaled (256 * m) (length bytes))) k.0 in
    ap (λ n. shift_in_all n bytes) one
    ∙ shift_in_all-big_endian (256 * uid + byte) (256 * m) bytes (omega arith) b k.1

All-take : (n : ℕ) (bytes : List ℕ) → All IsByte bytes → All IsByte (take n bytes)
All-take zero bytes h = tt
All-take (suc n) [] h = tt
All-take (suc n) (byte ∷ bytes) h = (h.0, All-take n bytes h.1)

All-drop : (n : ℕ) (bytes : List ℕ) → All IsByte bytes → All IsByte (drop n bytes)
All-drop zero bytes h = h
All-drop (suc n) [] h = tt
All-drop (suc n) (byte ∷ bytes) h = All-drop n bytes h.1

-- The id that is read from the chip's memory is the number that the bytes 52 to 59 spell, the first
-- one on top; bytes that the memory does not have count as 0.
generate_id-big_endian :
    (contents : List ℕ) (drawn : ℕ)
    → All IsByte contents
    → generate_id (some contents) drawn
      ≡ big_endian 0 (memcpy (replicate 8 0) (take 8 (drop 52 contents)))
unfolding generate_id
generate_id-big_endian contents drawn h =
    let bytes = take 8 (drop 52 contents) in
    let full : length (memcpy (replicate 8 0) bytes) ≡ 8 = length-memcpy (replicate 8 0) bytes in
    shift_in_all-big_endian 0 1 (memcpy (replicate 8 0) bytes) (omega arith)
      (omega (arith, ap (λ n. scaled 1 n) full))
      (All-memcpy IsByte (replicate 8 0) bytes (omega arith)
        (All-take 8 _ (All-drop 52 contents h)))

gen_id_eq :
    (k old generated id_base : ℕ)
    → id_base < 16
    → gen_id k (some old) generated id_base ≡ some (16 * (generated % id_range k / 16) + id_base)
unfolding gen_id
gen_id_eq k old generated id_base h =
    let low : generated % id_range k < id_range k = grind (arith, pow_pos k) in
    let base : id_base % id_range k ≡ id_base = grind (arith, pow_pos k) in
    ap some (
      ap₂ (λ m n. bit_or m n) (clear_nibble k (generated % id_range k) low) base
      ∙ or_beside 4 (generated % id_range k / 16) id_base h)

-- For a network number below 16, the id has that number in its lowest four bits and the bits of the
-- generated id above them, cut to the width of the type.
pub gen_id_lem :
    (k old generated id_base : ℕ)
    → id_base < 16
    → (id : ℕ) × (gen_id k (some old) generated id_base ≡ some id)
      × (id % 16 ≡ id_base)
      × (id / 16 ≡ generated % id_range k / 16)
      × (id < id_range k)
gen_id_lem k old generated id_base h =
    let high = generated % id_range k / 16 in
    let low : generated % id_range k < id_range k = grind (arith, pow_pos k) in
    (
      16 * high + id_base,
      gen_id_eq k old generated id_base h,
      omega arith,
      omega arith,
      omega arith,
    )
