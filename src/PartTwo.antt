-- ===== src/PartTwo.antt =====
-- Ensc351Part2/src: the sender, the receiver and the medium of Part 2, before the state charts.
pub mod Receiver
pub mod Stored
pub mod Sender
pub mod Resent
pub mod Medium
pub mod Places
