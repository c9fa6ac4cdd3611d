-- ===== src/Mesh/Identity/Tests.antt =====
-- Instances of the theorems on node ids, with ids of 64 bits.
use kaonic_comm.Shared.{◌≡◌, refl, none, some, [], ◌∷◌, ◌++◌, replicate}
use kaonic_comm.Mesh.Identity.{generate_id, gen_id}

-- A memory that ends after two of the bytes.
generate_id_short : generate_id (some (replicate 52 9 ++ 1 ∷ 2 ∷ [])) 5 ≡ 0x0102000000000000
unfolding generate_id
generate_id_short = refl

gen_id_run : gen_id 60 (some 0) 0x0102030405060708 3 ≡ some 0x0102030405060703
unfolding gen_id
gen_id_run = refl

gen_id_null : gen_id 60 none 77 3 ≡ none
unfolding gen_id
gen_id_null = refl
