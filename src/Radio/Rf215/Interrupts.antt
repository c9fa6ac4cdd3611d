-- ===== src/Radio/Rf215/Interrupts.antt =====
-- The callbacks wait_irq, reset and sleep of rf215_radio: the lines of the chip. libgpiod and the clock
-- are a parameter.
pub mod Laws
mod Tests
use kaonic_comm.Shared.{ℕ, Bool, true, false, Option, List, if◌then◌else◌}
use kaonic_comm.Failure.{is_ok}
use kaonic_comm.Drivers.Gpio.{GpioSpec}
use kaonic_comm.Drivers.Spi.{System, Spi, read_buffer}
use kaonic_comm.Radio.Rf215.Bus.{Rf215RadioConfig}

-- `wait_edge` is `wait_edge_events`, with the time in milliseconds, and `read_edges` takes the events
-- from the line of the interrupt; `set_value` sets a line, with true for active.
pub record Lines {ℓ} (W : Type ℓ) : Type ℓ where
  pub wait_edge : W → ℕ → Bool × W
  pub read_edges : W → W
  pub set_value : W → GpioSpec → Bool → W
  pub sleep_for : W → ℕ → W

module _ {ℓ} {W : Type ℓ} (sys : System W) (lines : Lines W) where
  -- `wait_irq(ctx, timeout, irq)` with the memory at `irq`, which takes `irq_size` bytes.
  unfoldable pub wait_irq : ℕ → Spi → W → ℕ → Option (List ℕ) → Bool × Option (List ℕ) × W
  wait_irq irq_size s w millis irq =
      let (has_irq, w') = lines.wait_edge w millis in
      let (err, irq', w'') = read_buffer sys s (lines.read_edges w') 0 irq irq_size in
      if has_irq
      then (if is_ok err then (true, irq', w'') else (false, irq', w''))
      else (false, irq, w')

module _ {ℓ} {W : Type ℓ} (lines : Lines W) where
  unfoldable pub sleep : W → ℕ → W
  sleep w millis = lines.sleep_for w millis

  unfoldable pub reset : Rf215RadioConfig → W → W
  reset config w =
      let low = lines.sleep_for (lines.set_value w config.rst_gpio true) 25 in
      lines.sleep_for (lines.set_value low config.rst_gpio false) 25
