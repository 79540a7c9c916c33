-- ===== src/Remote.antt =====
-- src/core/remote_tensor_table.cpp, remote_tensor_table.h: what senders keep of tensors, and receivers read.
pub mod Copies
mod Packed
mod Get
mod Tests
pub mod Prefetch
mod Fresh
pub mod Uses
pub mod Shards
pub mod Reads
mod Strides
mod Fetches
pub mod Reshard
mod Columns
mod Parts
