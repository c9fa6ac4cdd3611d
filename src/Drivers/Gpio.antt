-- ===== src/Drivers/Gpio.antt =====
-- kaonic/include/kaonic/comm/drivers/gpio.hpp, and the settings of a line that
-- kaonic/src/comm/radio/rf215_radio.cpp asks libgpiod for.
use Prim.Native.String.{String}
use kaonic_comm.Shared.{ℕ, Bool, true, false}

-- `gpio_spec`
pub record GpioSpec : Type 0 where
  pub gpio_chip : String
  pub gpio_line : ℕ

pub data Direction : Type 0 where
  input output : Direction

-- A request for a line.
pub record LineRequest : Type 0 where
  pub spec : GpioSpec
  pub consumer : String
  pub direction : Direction
  pub active_low : Bool
  pub pull_down : Bool
  pub rising_edge : Bool

-- `init_gpio_input`
abbrev pub input_line : GpioSpec → String → Bool → LineRequest
input_line spec consumer active_low = record {
  spec = spec;
  consumer = consumer;
  direction = input;
  active_low = active_low;
  pull_down = true;
  rising_edge = true;
}

-- `init_gpio_output`; the line starts as inactive.
abbrev pub output_line : GpioSpec → String → Bool → LineRequest
output_line spec consumer active_low = record {
  spec = spec;
  consumer = consumer;
  direction = output;
  active_low = active_low;
  pull_down = false;
  rising_edge = false;
}
