-- ===== src/Serial/Port/Transfer/Laws.antt =====
-- What read and write of the serial port return, over a system whose read keeps its promise.
use kaonic_comm.Shared.{ℕ, ◌≤◌, ◌≡◌, ◌⊎◌, List, [], arith, length, ℤ, pos, negsuc}
use kaonic_comm.Serial.Port.Transfer.{Io, size_of, write_port}

-- `read(2)`: so many bytes as it returns, and no more than asked for, or -1 and none.
abbrev pub IsReader {ℓ} : {W : Type ℓ} → Io W → Type ℓ
IsReader {W = W} io =
    (w : W) (fd : ℤ) (size : ℕ)
    → let (rc, stored, w') = io.read w fd size in
      ((rc ≡ pos (length stored)) × (length stored ≤ size)) ⊎ ((rc ≡ negsuc 0) × (stored ≡ []))

module _ {ℓ} {W : Type ℓ} (k : ℕ) (io : Io W) where
  -- The branch of `write` for a failed call is never taken: the output is not flushed.
  write_port_unflushed :
      (fd : ℤ) (w : W) (bytes : List ℕ)
      → write_port k io fd w bytes ≡ (size_of k (io.write w fd bytes).0, (io.write w fd bytes).1)
  unfolding write_port
  write_port_unflushed fd w bytes = ground arith
