-- ===== src/Tests.antt =====
-- Concrete inputs at which the theorems apply, for the code under src/cw.
pub mod ListMap
pub mod Stores
pub mod Configs
pub mod Sets
pub mod Transport
pub mod Messages
pub mod Queues
pub mod Lists
