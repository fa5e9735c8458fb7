-- ===== src/MyIo.antt =====
-- Ensc351ymodLib/myIO.cpp: reading, writing and draining of socket pairs.
pub mod Defs
pub mod Steps
pub mod Sound
pub mod Channel
pub mod Reads
pub mod Shows
pub mod InOrder
pub mod Drain
pub mod Calls
pub mod Pairs
pub mod Kept
pub mod Closed
pub mod Ends
