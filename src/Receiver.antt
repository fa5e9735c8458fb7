-- ===== src/Receiver.antt =====
-- The receiver of Ensc351ymodLib: ReceiverY.cpp and its state chart yReceiverSS.cpp.
pub mod Defs
pub mod Chart
pub mod Machine
pub mod Accept
pub mod Blocks
pub mod Damage
pub mod Runs
pub mod Write
pub mod Transfer
pub mod Repeats
pub mod Once
pub mod Fuel
pub mod Cancel
pub mod StatBlock
pub mod Files
pub mod Session
pub mod Ends
pub mod Settled
pub mod Loop
pub mod Silence
