-- ===== src/Radio/Rf215/Interrupts/Tests.antt =====
-- An instance of the theorem on interrupts, with a world that counts, and a reset that is logged.
use kaonic_comm.Shared.{ℕ, ◌≡◌, refl, Bool, true, false, List, [], ◌∷◌}
use kaonic_comm.Drivers.Gpio.{GpioSpec}
use kaonic_comm.Drivers.Spi.{SpiConfig}
use kaonic_comm.Radio.Rf215.Bus.{Rf215RadioConfig}
use kaonic_comm.Radio.Rf215.Interrupts.{Lines, reset}

abbrev plain_spi : SpiConfig
plain_spi = record { dev = "/dev/spidev6.0"; mode = 0; bits_per_word = 8; speed = 500 }

-- What is set, and how long is slept.
data Action : Type 0 where
  set_to : Bool → Action
  slept : ℕ → Action

abbrev logged : Lines (List Action)
logged = record {
  wait_edge = λ w millis. (false, w);
  read_edges = λ w. w;
  set_value = λ w l v. set_to v ∷ w;
  sleep_for = λ w millis. slept millis ∷ w;
}

abbrev line : GpioSpec
line = record { gpio_chip = "/dev/gpiochip3"; gpio_line = 8 }

abbrev config : Rf215RadioConfig
config = record {
  name = "rfa";
  spi = plain_spi;
  rst_gpio = line;
  irq_gpio = line;
  flt_sel_v1_gpio = line;
  flt_sel_v2_gpio = line;
  flt_sel_24_gpio = line;
}

reset_run : reset logged config [] ≡ slept 25 ∷ set_to false ∷ slept 25 ∷ set_to true ∷ []
unfolding reset
reset_run = refl
