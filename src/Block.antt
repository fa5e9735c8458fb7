-- ===== src/Block.antt =====
-- The blocks of the protocol, as byte arrays.
pub mod Defs
pub mod Layout
pub mod Stat
