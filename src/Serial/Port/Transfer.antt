-- ===== src/Serial/Port/Transfer.antt =====
-- read, write and close of kaonic/src/comm/serial/serial.cpp. `k` is the number of bits of a size_t.
pub mod Laws
mod Tests
use kaonic_comm.Shared.{
  ℕ, zero, suc, ◌+◌, ◌-◌, ◌*◌, ◌%◌, ◌^◌, Bool, List, [], ◌∷◌, ltb, ℤ, pos, negsuc, is_negative,
  if◌then◌else◌, memcpy,
}
use kaonic_comm.Radio.Rf215.Device.{is_success}

-- The system calls: `select` with the time in microseconds, and `read` with the bytes that it stores.
pub record Io {ℓ} (W : Type ℓ) : Type ℓ where
  pub select : W → ℤ → ℕ → ℤ × W
  pub read : W → ℤ → ℕ → ℤ × List ℕ × W
  pub write : W → ℤ → List ℕ → ℤ × W
  pub flush_output : W → ℤ → W
  pub close : W → ℤ → W

-- The conversion of an `ssize_t` to `size_t`.
abbrev pub size_of : ℕ → ℤ → ℕ
size_of k (pos n) = n % 2 ^ k
size_of k (negsuc n) = 2 ^ k - 1 - n % 2 ^ k

module _ {ℓ} {W : Type ℓ} (k : ℕ) (io : Io W) where
  -- `read(data, length, timeout)` with the memory at `data`: the size, that memory, and the system.
  -- The branch on a size below 0 only logs.
  unfoldable pub read_port : ℤ → W → List ℕ → ℕ → ℕ → ℕ × List ℕ × W
  read_port fd w memory length millis =
      let (selected_fd, w') = io.select w fd (millis * 1000) in
      let (rc, stored, w'') = io.read w' fd length in
      if is_success selected_fd
      then (0, memory, w')
      else if is_negative selected_fd
      then (size_of k (negsuc 0), memory, w')
      else (size_of k rc, memcpy memory stored, w'')

  -- `write(data, length)` with the `length` bytes at `data`.
  unfoldable pub write_port : ℤ → W → List ℕ → ℕ × W
  write_port fd w bytes =
      let (rc, w') = io.write w fd bytes in
      let bytes_writen = size_of k rc in
      if ltb bytes_writen 0 then (bytes_writen, io.flush_output w' fd) else (bytes_writen, w')

module _ {ℓ} {W : Type ℓ} (io : Io W) where
  unfoldable pub close_port : ℤ → W → W
  close_port fd w = io.close w fd
