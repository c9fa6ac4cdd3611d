-- ===== src/Daemon/Machine.antt =====
-- The machines of kaonic/src/main.cpp: the devices and the lines of their radios.
use Prim.Native.String.{String}
use text.Mathlib.Text.{◌==◌}
use kaonic_comm.Shared.{ℕ, ◌*◌, Option, none, some, if◌then◌else◌}
use kaonic_comm.Drivers.Gpio.{GpioSpec}
use kaonic_comm.Drivers.Spi.{SpiConfig}
use kaonic_comm.Radio.Rf215.Bus.{Rf215RadioConfig}

-- `kaonic_machine_config`
pub record MachineConfig : Type 0 where
  pub rfa_config : Rf215RadioConfig
  pub rfb_config : Rf215RadioConfig

abbrev pub rf215_spi_freq : ℕ
rf215_spi_freq = 5 * 1000 * 1000

-- `drivers::spi_config { .dev, .speed }`, with the other fields as the struct has them.
abbrev pub spi_device : String → ℕ → SpiConfig
spi_device dev speed = record { dev = dev; mode = 0; bits_per_word = 8; speed = speed }

abbrev pub line_of : String → ℕ → GpioSpec
line_of chip n = record { gpio_chip = chip; gpio_line = n }

abbrev pub machine_config_protoa : MachineConfig
machine_config_protoa = record {
  rfa_config = record {
    name = "rfa";
    spi = spi_device "/dev/spidev6.0" rf215_spi_freq;
    rst_gpio = line_of "/dev/gpiochip3" 8;
    irq_gpio = line_of "/dev/gpiochip3" 9;
    flt_sel_v1_gpio = line_of "/dev/gpiochip8" 10;
    flt_sel_v2_gpio = line_of "/dev/gpiochip8" 11;
    flt_sel_24_gpio = line_of "/dev/gpiochip8" 12;
  };
  rfb_config = record {
    name = "rfb";
    spi = spi_device "/dev/spidev3.0" rf215_spi_freq;
    rst_gpio = line_of "/dev/gpiochip4" 13;
    irq_gpio = line_of "/dev/gpiochip4" 15;
    flt_sel_v1_gpio = line_of "/dev/gpiochip8" 0;
    flt_sel_v2_gpio = line_of "/dev/gpiochip8" 1;
    flt_sel_24_gpio = line_of "/dev/gpiochip8" 2;
  };
}

abbrev pub machine_config_protob : MachineConfig
machine_config_protob = record {
  rfa_config = record {
    name = "rfa";
    spi = spi_device "/dev/spidev6.0" rf215_spi_freq;
    rst_gpio = line_of "/dev/gpiochip3" 8;
    irq_gpio = line_of "/dev/gpiochip3" 9;
    flt_sel_v1_gpio = line_of "/dev/gpiochip9" 10;
    flt_sel_v2_gpio = line_of "/dev/gpiochip9" 11;
    flt_sel_24_gpio = line_of "/dev/gpiochip9" 12;
  };
  rfb_config = record {
    name = "rfb";
    spi = spi_device "/dev/spidev3.0" (5 * 1000 * 1000);
    rst_gpio = line_of "/dev/gpiochip4" 13;
    irq_gpio = line_of "/dev/gpiochip4" 15;
    flt_sel_v1_gpio = line_of "/dev/gpiochip9" 0;
    flt_sel_v2_gpio = line_of "/dev/gpiochip9" 1;
    flt_sel_24_gpio = line_of "/dev/gpiochip9" 2;
  };
}

abbrev pub machine_config_protoc : MachineConfig
machine_config_protoc = machine_config_protob

-- The tests on the name, which is empty if the file cannot be opened.
abbrev pub config_for : String → MachineConfig
config_for machine =
    if machine == "stm32mp1-kaonic-protoa"
    then machine_config_protoa
    else if machine == "stm32mp1-kaonic-protob"
    then machine_config_protob
    else if machine == "stm32mp1-kaonic-protoc"
    then machine_config_protoc
    else machine_config_protoc

unfoldable pub select_machine_config : Option String → MachineConfig
select_machine_config none = config_for ""
select_machine_config (some line) = config_for line
