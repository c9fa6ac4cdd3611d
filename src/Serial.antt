-- ===== src/Serial.antt =====
-- kaonic/src/comm/serial: the framing and the packets of the serial link.
pub mod Hdlc
pub mod Packet
pub mod Port
