-- ===== src/Drivers/Spi.antt =====
-- kaonic/src/comm/drivers/spi.cpp: the SPI device below a radio. The system calls are a parameter.
pub mod Laws
mod Tests
use Prim.Native.String.{String}
use kaonic_comm.Shared.{
  ℕ, zero, suc, ◌/◌, ◌%◌, Bool, true, false, ◌||◌, ◌==◌, Option, none, some, List, [], ◌∷◌, ℤ, pos,
  negsuc, is_negative, if◌then◌else◌, memcpy,
}
use kaonic_comm.Failure.{Error, ok, fail, invalid_arg, is_ok}

-- `spi_config`
pub record SpiConfig : Type 0 where
  pub dev : String
  pub mode : ℕ
  pub bits_per_word : ℕ
  pub speed : ℕ

-- The requests of `open` to `ioctl`.
pub data Request : Type 0 where
  wr_mode wr_bits_per_word wr_max_speed_hz : ℕ → Request

-- `spi_ioc_transfer`: the bytes at `tx_buf`, if it is set, and whether `rx_buf` is set.
pub record Transfer : Type 0 where
  pub tx_buf : Option (List ℕ)
  pub rx_buf : Bool
  pub len : ℕ
  pub speed_hz : ℕ
  pub bits_per_word : ℕ

-- The system calls. `message` is the request SPI_IOC_MESSAGE(2): the return code, and the bytes
-- stored at `rx_buf` of the second transfer.
pub record System {ℓ} (W : Type ℓ) : Type ℓ where
  pub open_device : W → String → ℤ × W
  pub ioctl : W → ℤ → Request → ℤ × W
  pub message : W → ℤ → Transfer → Transfer → ℤ × List ℕ × W
  pub close : W → ℤ → W

pub record Spi : Type 0 where
  pub device_fd : ℤ
  pub config : SpiConfig

-- `rc == -1`
abbrev pub is_minus_one : ℤ → Bool
is_minus_one (pos n) = false
is_minus_one (negsuc zero) = true
is_minus_one (negsuc (suc n)) = false

-- `htobe16(addr)` as the two bytes in memory.
abbrev pub htobe16 : ℕ → List ℕ
htobe16 addr = addr / 256 % 256 ∷ addr % 256 ∷ []

-- The settings that `open` makes, in order.
abbrev pub requests_of : SpiConfig → List Request
requests_of config =
    wr_mode config.mode ∷ wr_bits_per_word config.bits_per_word ∷ wr_max_speed_hz config.speed ∷ []

module _ {ℓ} {W : Type ℓ} (sys : System W) where
  abbrev pub close : Spi → W → W
  close s w = sys.close w s.device_fd

  -- The calls of `ioctl` in `open`: the first that returns -1 closes the device.
  pub set_each : Spi → W → List Request → Error × W
  set_each s w [] = (ok, w)
  set_each s w (r ∷ requests) =
      let (rc, w') = sys.ioctl w s.device_fd r in
      let rest = set_each s w' requests in if is_minus_one rc then (fail, close s w') else rest

  unfoldable pub open_spi : Spi → W → SpiConfig → Error × Spi × W
  unfolding set_each
  open_spi s w config =
      let (fd, w') = sys.open_device w config.dev in
      let s' = record s { device_fd = fd } in
      if is_negative fd
      then (fail, s', w')
      else (let (err, w'') = set_each s' w' (requests_of config) in
          if is_ok err then (ok, record s' { config = config }, w'') else (err, s', w''))

  abbrev pub address_transfer : Spi → ℕ → Transfer
  address_transfer s addr = record {
    tx_buf = some (htobe16 addr);
    rx_buf = false;
    len = 2;
    speed_hz = s.config.speed;
    bits_per_word = s.config.bits_per_word;
  }

  -- `read_buffer(addr, buffer, length)`, with the memory at `buffer`, `none` for a null pointer: the
  -- error, and that memory.
  unfoldable pub read_buffer : Spi → W → ℕ → Option (List ℕ) → ℕ → Error × Option (List ℕ) × W
  read_buffer s w addr none length = (invalid_arg, none, w)
  read_buffer s w addr (some memory) length =
      if length == 0
      then (invalid_arg, some memory, w)
      else (let transfer : Transfer = record {
        tx_buf = none;
        rx_buf = true;
        len = length;
        speed_hz = s.config.speed;
        bits_per_word = s.config.bits_per_word;
      } in
          let (rc, stored, w') = sys.message w s.device_fd (address_transfer s addr) transfer in
          (if is_negative rc then fail else ok, some (memcpy memory stored), w'))

  -- `write_buffer(addr, buffer, length)`, with the `length` bytes at `buffer`.
  unfoldable pub write_buffer : Spi → W → ℕ → Option (List ℕ) → ℕ → Error × W
  write_buffer s w addr none length = (invalid_arg, w)
  write_buffer s w addr (some bytes) length =
      if length == 0
      then (invalid_arg, w)
      else (let transfer : Transfer = record {
        tx_buf = some bytes;
        rx_buf = false;
        len = length;
        speed_hz = s.config.speed;
        bits_per_word = s.config.bits_per_word;
      } in
          let (rc, stored, w') = sys.message w s.device_fd (address_transfer s addr) transfer in
          (if is_negative rc then fail else ok, w'))
