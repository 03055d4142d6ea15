-- ===== src/Capwap.antt =====
-- The tables of the CAPWAP module, src/mod/capwap/capwap_actions.c, and what they say together.
pub mod Names
pub mod Messages
pub mod Handlers
pub mod Cisco
pub mod Machine
