-- ===== src/Text.antt =====
-- What the program uses of C strings and of the C++ library on text: the name and the size in a
-- stat block.
pub mod Defs
pub mod Decimal
