-- ===== src/Medium.antt =====
-- Ensc351Part6/src: the medium between the two terminals, and the switch of the keyboard.
pub mod Defs
pub mod Arrays
pub mod Stream
pub mod Passed
pub mod Invariant
pub mod Bytes
pub mod Damage
pub mod Loop
pub mod Kvm
