-- ===== src/Tests.antt =====
-- Examples of the theorems at concrete inputs.
mod Data
mod Protocol
mod ReceiverRuns
mod ReceiverEnds
mod SenderRuns
mod Crossings
mod NextFiles
mod Sockets
mod Mediums
mod Stages
mod Loops
