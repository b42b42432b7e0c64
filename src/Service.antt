-- ===== src/Service.antt =====
-- The handlers of src/utils/colod_service.cpp.
pub mod Status
pub mod Connect
pub mod Define
pub mod Start
pub mod Destroy
pub mod Colo
pub mod Failover
pub mod Peer
pub mod Invariant
pub mod Others
pub mod Tables
pub mod Total
