-- ===== src/LabRpc.antt =====
-- src/labrpc/labrpc.go: the simulated network between the labs' clients and servers.
pub mod Network
pub mod Server
pub mod Calls
mod Tests
