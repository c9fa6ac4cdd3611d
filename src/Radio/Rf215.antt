-- ===== src/Radio/Rf215.antt =====
-- kaonic/src/comm/radio/rf215_radio.cpp. The driver of the chip (rf215, a git submodule) and the
-- GPIO lines are the parameters `Driver` and `Board`; the registers are names, since their addresses
-- are the driver's.
pub mod Registers
pub mod Ofdm
pub mod Fsk
pub mod Device
pub mod Overlap
pub mod Bus
pub mod Interrupts
