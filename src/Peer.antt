-- ===== src/Peer.antt =====
-- PeerY.h and PeerY.cpp of Ensc351ymodLib: what a sender and a receiver share.
pub mod Defs
pub mod Loops
pub mod Transfer
pub mod Clock
