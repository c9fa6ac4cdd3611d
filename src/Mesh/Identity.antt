-- ===== src/Mesh/Identity.antt =====
-- generate_id and gen_id of kaonic/src/comm/mesh/network.cpp: the id of a node from the id of the
-- chip and the number of the network.
pub mod Laws
mod Tests
use Prim.Native.Nat.{bit_and, bit_or}
use kaonic_comm.Shared.{
  ℕ, ◌-◌, ◌*◌, ◌%◌, ◌^◌, Option, none, some, List, [], ◌∷◌, take, drop, replicate, memcpy,
}

-- `uid = (uid << 8) | byte`, on 64 bits.
pub shift_in : ℕ → ℕ → ℕ
shift_in uid byte = bit_or (uid * 2 ^ 8 % 2 ^ 64) byte

pub shift_in_all : ℕ → List ℕ → ℕ
unfolding shift_in
shift_in_all uid [] = uid
shift_in_all uid (byte ∷ bytes) = shift_in_all (shift_in uid byte) bytes

-- `uid_data` behind the read: eight zeros, over which lie the bytes of the file from 52 on, as many
-- as there are.
pub uid_data : List ℕ → List ℕ
uid_data contents = memcpy (replicate 8 0) (take 8 (drop (13 * 4) contents))

-- `generate_id()`, with the contents of the file, `none` if it cannot be opened, and the number that
-- is drawn in that case.
unfoldable pub generate_id : Option (List ℕ) → ℕ → ℕ
unfolding uid_data shift_in_all
generate_id none drawn = drawn
generate_id (some contents) drawn = shift_in_all 0 (uid_data contents)

-- The number of values of `rfnet_node_id_t`, an unsigned type of `k + 4` bits.
abbrev pub id_range : ℕ → ℕ
id_range k = 16 * 2 ^ k

-- `gen_id(ctx, id)` with the value of `generate_id` and the field `id_base`: what `*id` holds then,
-- `none` for a null pointer.
unfoldable pub gen_id : ℕ → Option ℕ → ℕ → ℕ → Option ℕ
gen_id k none generated id_base = none
gen_id k (some old) generated id_base =
    let low = generated % id_range k in
    let masked = bit_and low (id_range k - 16) in some (bit_or masked (id_base % id_range k))
