-- ===== src/Regist.antt =====
-- src/utrans/utrans.c: registration of memory with the network card, on the set of regions.
pub mod Context
pub mod Api
mod Release
mod Sets
mod Runs
mod Dereg
mod Threads
mod Moves
mod Invariant
mod Tests
