-- ===== src/Drivers.antt =====
-- kaonic/src/comm/drivers: the devices below the radios.
pub mod Gpio
pub mod Spi
