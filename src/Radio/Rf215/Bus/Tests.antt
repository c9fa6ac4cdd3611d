-- ===== src/Radio/Rf215/Bus/Tests.antt =====
-- An instance of the theorem on init, over a bus on which the SPI device cannot be opened, and one of
-- the theorem on write and read, over a chip whose registers are a function.
use kaonic_comm.Shared.{
  ◌<◌, ℕ, ◌+◌, ◌-◌, ◌≤◌, ◌≡◌, refl, true, false, Option, none, some, List, [], ◌∷◌, ℤ, pos, negsuc,
  leb, if◌then◌else◌, arith,
}
use kaonic_comm.Failure.{ok, fail, is_ok}
use kaonic_comm.Drivers.Gpio.{GpioSpec}
use kaonic_comm.Drivers.Spi.{SpiConfig, System, Spi, Transfer, open_spi, read_buffer, write_buffer}
use kaonic_comm.Radio.Rf215.Bus.{Rf215RadioConfig, Board, lines, init, read, write}
use kaonic_comm.Radio.Rf215.Bus.Registers.{store, block, command, write_access, IsChip, write-read}

abbrev no_device : System ℕ
no_device = record {
  open_device = λ w dev. (negsuc 0, w);
  ioctl = λ w fd r. (pos 0, w);
  message = λ w fd address transfer. (negsuc 0, [], w);
  close = λ w fd. w;
}

abbrev good_board : Board ℕ
good_board = record {
  request = λ w l. (true, w);
  init = λ s w. (pos 0, w);
  probe = λ s w. (0x34, w);
}

abbrev spi_config : SpiConfig
spi_config = record { dev = "/dev/spidev6.0"; mode = 0; bits_per_word = 8; speed = 500 }

abbrev chip_line : ℕ → GpioSpec
chip_line n = record { gpio_chip = "/dev/gpiochip3"; gpio_line = n }

abbrev some_config : Rf215RadioConfig
some_config = record {
  name = "rfa";
  spi = spi_config;
  rst_gpio = chip_line 8;
  irq_gpio = chip_line 9;
  flt_sel_v1_gpio = chip_line 10;
  flt_sel_v2_gpio = chip_line 11;
  flt_sel_24_gpio = chip_line 12;
}

abbrev unopened : Spi
unopened = record { device_fd = pos 0; config = spi_config }

-- The device was not opened, and the start of the radio succeeds.
init-unopened :
    ((open_spi no_device unopened 0 spi_config).0 ≡ fail)
    × ((init no_device good_board unopened 0 some_config).0 ≡ ok)
unfolding open_spi init lines
init-unopened = (refl, refl)

read-refused : (read no_device unopened 0 5 (some (1 ∷ [])) 1).0 ≡ negsuc 0
unfolding read read_buffer is_ok
read-refused = refl

abbrev chip_stores : (ℕ → ℕ) → ℕ → Option (List ℕ) → ℤ × List ℕ × (ℕ → ℕ)
chip_stores w a none = (negsuc 0, [], w)
chip_stores w a (some bytes) = (pos 0, [], store w a bytes)

abbrev chip_obeys : (ℕ → ℕ) → Option (List ℕ) → Transfer → ℤ × List ℕ × (ℕ → ℕ)
chip_obeys w (some (hi ∷ lo ∷ [])) second =
    if leb write_access (command hi lo)
    then chip_stores w (command hi lo - write_access) second.tx_buf
    else (pos 0, block w (command hi lo) second.len, w)
chip_obeys w first second = (negsuc 0, [], w)

abbrev register_file : System (ℕ → ℕ)
register_file = record {
  open_device = λ w dev. (pos 3, w);
  ioctl = λ w fd r. (pos 0, w);
  message = λ w fd first second. chip_obeys w first.tx_buf second;
  close = λ w fd. w;
}

register_file_stores :
    (w : ℕ → ℕ) (second : Transfer) (hi lo a : ℕ) (bytes : List ℕ)
    → second.tx_buf ≡ some bytes
    → command hi lo ≡ write_access + a
    → (i : ℕ) → (chip_obeys w (some (hi ∷ lo ∷ [])) second).2 i ≡ store w a bytes i
register_file_stores w second hi lo a bytes e c i =
    let taken : leb write_access (command hi lo) ≡ true = ground arith in
    let at : command hi lo - write_access ≡ a = omega arith in rw (taken, at, e) refl

register_file_answers :
    (w : ℕ → ℕ) (second : Transfer) (hi lo a : ℕ)
    → command hi lo ≡ a
    → a + second.len ≤ 0x2FFF
    → chip_obeys w (some (hi ∷ lo ∷ [])) second ≡ (pos 0, block w a second.len, w)
register_file_answers w second hi lo a c fits =
    let refused : leb write_access (command hi lo) ≡ false = ground arith in rw (refused, c) refl

-- The frame buffer for transmission is memory.
register_file-IsChip : IsChip register_file (λ w. w) 0x2800 0x2FFF
register_file-IsChip = record {
  addressed = omega arith;
  stores = λ w fd first second hi lo a bytes f n e l c above fits sent i le lt.
      rw f (register_file_stores w second hi lo a bytes e c i);
  answers = λ w fd first second hi lo a f n e r c above fits sent.
      rw (f, register_file_answers w second hi lo a c fits) (refl, λ i le lt. refl);
}

write-read_example :
    let w' = (write register_file unopened (λ i. 0) 0xA800 (some (7 ∷ 8 ∷ [])) 2).1 in
    let (rc, memory', w'') = read register_file unopened w' 0x2800 (some (0 ∷ 0 ∷ [])) 2 in
    (memory' ≡ some (7 ∷ 8 ∷ []))
    × ((i : ℕ) → 0x2800 ≤ i → i < 0x2FFF → w'' i ≡ store (λ i. 0) 0x2800 (7 ∷ 8 ∷ []) i)
unfolding write write_buffer read read_buffer is_ok
write-read_example =
    write-read register_file (λ w. w) 0x2800 0x2FFF register_file-IsChip unopened (λ i. 0) 0x2800
      (7 ∷ 8 ∷ []) (0 ∷ 0 ∷ []) (λ e. cc) refl (omega arith) (omega arith) refl refl
