-- ===== src/Crc.antt =====
-- crc.c and crc.h of Ensc351ymodLib: the CRC-16 of a chunk, and the order of its two bytes.
-- `unsigned` has 32 bits. A `uint16_t` in memory depends on the machine's byte order, so that order
-- is an argument.
pub mod Defs
pub mod Register
pub mod Detect
pub mod Chunk
