-- ===== src/PartThree.antt =====
-- Ensc351Part3-soln/src: the first version of `myReadcond` on socket pairs, which waits without a limit.
pub mod Defs
pub mod Waits
