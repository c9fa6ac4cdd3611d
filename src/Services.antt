-- ===== src/Services.antt =====
-- kaonic/src/comm/services: the services over the radios, and what they share.
pub mod Buffers
pub mod RadioPort
pub mod Serial
pub mod Grpc
pub mod Radio
