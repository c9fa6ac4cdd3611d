-- ===== src/Mesh.antt =====
-- kaonic/src/comm/mesh: the networks over the radios, and those who listen to them.
pub mod Receiver
pub mod Interface
pub mod Network
pub mod Update
pub mod Contention
pub mod Identity
pub mod Node
