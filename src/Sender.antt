-- ===== src/Sender.antt =====
-- The sender of Ensc351ymodLib: SenderY.cpp and its state chart ySenderSS.cpp.
pub mod Defs
pub mod Chart
pub mod Machine
pub mod Resend
pub mod Runs
pub mod Cancel
pub mod Naks
pub mod Sending
pub mod WholeFile
pub mod FirstBlocks
pub mod NextFile
pub mod Loop
