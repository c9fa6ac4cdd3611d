-- ===== src/Drivers/Spi/Tests.antt =====
-- Instances of the theorem on spi::open, and runs, over a system whose state is the list of the
-- descriptors held, and which refuses one speed.
use kaonic_comm.Shared.{
  ℕ, ◌≡◌, ◌⊎◌, refl, ap, none, some, List, [], ◌∷◌, ◌==◌, arith, drop, ℤ, pos, negsuc,
  if◌then◌else◌,
}
use kaonic_comm.Failure.{ok, fail, invalid_arg, is_ok}
use kaonic_comm.Drivers.Spi.{
  SpiConfig, Request, wr_mode, wr_bits_per_word, wr_max_speed_hz, System, Spi, open_spi,
  read_buffer, write_buffer,
}
use kaonic_comm.Drivers.Spi.Laws.{KeepsDescriptors, open_spi_held}

abbrev refused_speed : ℕ
refused_speed = 99

abbrev answer : Request → ℤ
answer (wr_mode n) = pos 0
answer (wr_bits_per_word n) = pos 0
answer (wr_max_speed_hz n) = if n == refused_speed then negsuc 0 else pos 0

abbrev table : System (List ℤ)
table = record {
  open_device = λ w dev. (pos 7, pos 7 ∷ w);
  ioctl = λ w fd r. (answer r, w);
  message = λ w fd address transfer. (pos 0, 5 ∷ 6 ∷ [], w);
  close = λ w fd. drop 1 w;
}

table-KeepsDescriptors : KeepsDescriptors table (λ w. w)
table-KeepsDescriptors = record {
  opened = λ w dev e. refl;
  not_opened = λ w dev e. ground arith;
  set = λ w fd r. refl;
  closed = λ w fd rest e. ap (λ l. drop 1 l) e;
}

abbrev config_at : ℕ → SpiConfig
config_at speed = record { dev = "/dev/spidev6.0"; mode = 0; bits_per_word = 8; speed = speed }

abbrev unopened : Spi
unopened = record { device_fd = pos 0; config = config_at 1000000 }

open_spi_held_example :
    let (err, s', w') = open_spi table unopened (pos 3 ∷ []) (config_at refused_speed) in
    ((err ≡ ok) × (w' ≡ s'.device_fd ∷ pos 3 ∷ []) × (s'.config ≡ config_at refused_speed))
    ⊎ ((err ≡ fail) × (w' ≡ pos 3 ∷ []) × (s'.config ≡ config_at 1000000))
open_spi_held_example =
    open_spi_held table (λ w. w) table-KeepsDescriptors unopened (pos 3 ∷ [])
      (config_at refused_speed)

open_spi-refused : (open_spi table unopened (pos 3 ∷ []) (config_at refused_speed)).0 ≡ fail
unfolding open_spi is_ok
open_spi-refused = refl

open_spi-taken : (open_spi table unopened [] (config_at 500)).2 ≡ pos 7 ∷ []
unfolding open_spi is_ok
open_spi-taken = refl

read_buffer-two :
    read_buffer table unopened [] 0x0102 (some (1 ∷ 2 ∷ 3 ∷ [])) 2 ≡ (ok, some (5 ∷ 6 ∷ 3 ∷ []), [])
unfolding read_buffer
read_buffer-two = refl

write_buffer-null : write_buffer table unopened [] 0 none 4 ≡ (invalid_arg, [])
unfolding write_buffer
write_buffer-null = refl
