-- ===== src/Tests.antt =====
-- Sample runs of the program, one for each theorem that has conditions.
pub mod Data
pub mod Daemon
pub mod Tables
pub mod Total
pub mod Transfer
pub mod Files
pub mod Service
pub mod Starts
pub mod Peers
pub mod Progress
pub mod Parse
pub mod Invariants
