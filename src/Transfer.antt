-- ===== src/Transfer.antt =====
-- src/transfer/tensor_transfer_pull.cpp, tensor_transfer_pull.h: senders and receivers of weights.
pub mod Hosts
pub mod Service
mod Messages
pub mod Rounds
mod Pairs
mod Parties
mod Steps
mod Deliveries
mod Invariant
mod Puts
mod Safety
mod Tests
pub mod Compact
mod Groups
mod Located
mod Targets
mod Origins
mod Collected
mod Compacted
mod CompactTests
