-- ===== src/PartOne.antt =====
-- Ensc351Part1/src: the first stage of the sender, which writes the blocks of its files to a file.
pub mod Defs
pub mod Layout
pub mod StatBlock
pub mod DataLoop
pub mod Files
