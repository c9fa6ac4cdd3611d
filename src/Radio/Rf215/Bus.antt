-- ===== src/Radio/Rf215/Bus.antt =====
-- init of rf215_radio, and its callbacks write and read, over the SPI device. The requests of GPIO
-- lines (libgpiod) and the driver's own start are parameters.
pub mod Laws
pub mod Registers
mod Tests
use Prim.Native.String.{String, ◌++◌}
use kaonic_comm.Shared.{
  ℕ, zero, suc, Bool, true, false, not, ◌==◌, Option, List, [], ◌∷◌, ℤ, pos, negsuc, if◌then◌else◌,
}
use kaonic_comm.Failure.{Error, ok, fail, is_ok, with_error}
use kaonic_comm.Radio.Rf215.Device.{is_success}
use kaonic_comm.Drivers.Gpio.{GpioSpec, LineRequest, input_line, output_line}
use kaonic_comm.Drivers.Spi.{System, Spi, SpiConfig, open_spi, read_buffer, write_buffer}

-- `rf215_radio_config`
pub record Rf215RadioConfig : Type 0 where
  pub name : String
  pub spi : SpiConfig
  pub rst_gpio : GpioSpec
  pub irq_gpio : GpioSpec
  pub flt_sel_v1_gpio : GpioSpec
  pub flt_sel_v2_gpio : GpioSpec
  pub flt_sel_24_gpio : GpioSpec

-- The lines that `init` asks for, in order.
unfoldable pub lines : Rf215RadioConfig → List LineRequest
lines config =
    input_line config.irq_gpio (config.name ++ "-irq") false
    ∷ output_line config.rst_gpio (config.name ++ "-rst") true
    ∷ output_line config.flt_sel_v1_gpio (config.name ++ "-flt-sel-v1") false
    ∷ output_line config.flt_sel_v2_gpio (config.name ++ "-flt-sel-v2") false
    ∷ output_line config.flt_sel_24_gpio (config.name ++ "-flt-sel-24") false
    ∷ []

-- libgpiod's `do_request`: whether there is a request. `init` and `probe` are `rf215_init` and
-- `rf215_probe`.
pub record Board {ℓ} (W : Type ℓ) : Type ℓ where
  pub request : W → LineRequest → Bool × W
  pub init : Spi → W → ℤ × W
  pub probe : Spi → W → ℕ × W

module _ {ℓ} {W : Type ℓ} (board : Board W) where
  -- The first line that is refused ends the requests.
  pub request_each : W → List LineRequest → Bool × W
  request_each w [] = (true, w)
  request_each w (l ∷ rest) =
      let (granted, w') = board.request w l in
      let again = request_each w' rest in if granted then again else (false, w')

  -- The part of `init` behind the lines.
  pub start_chip : Spi → W → Error × W
  start_chip s w =
      let (rc, w') = board.init s w in
      let (part_number, w'') = board.probe s w' in
      if is_success rc then if part_number == 0 then (fail, w'') else (ok, w'') else (fail, w')

module _ {ℓ} {W : Type ℓ} (sys : System W) (board : Board W) where
  -- The error of `open` goes into a variable that nothing reads.
  unfoldable pub init : Spi → W → Rf215RadioConfig → Error × Spi × W
  unfolding request_each start_chip
  init s w config =
      let (opened, s', w') = open_spi sys s w config.spi in
      let err = with_error ok opened in
      let (granted, w'') = request_each board w' (lines config) in
      if granted
      then (let (result, last) = start_chip board s' w'' in (result, s', last))
      else (fail, s', w'')

module _ {ℓ} {W : Type ℓ} (sys : System W) where
  -- `write(ctx, reg, data, len)` and `read(ctx, reg, data, len)`.
  unfoldable pub write : Spi → W → ℕ → Option (List ℕ) → ℕ → ℤ × W
  write s w reg bytes len =
      let (err, w') = write_buffer sys s w reg bytes len in
      (if is_ok err then pos 0 else negsuc 0, w')

  unfoldable pub read : Spi → W → ℕ → Option (List ℕ) → ℕ → ℤ × Option (List ℕ) × W
  read s w reg memory len =
      let (err, memory', w') = read_buffer sys s w reg memory len in
      (if is_ok err then pos 0 else negsuc 0, memory', w')
