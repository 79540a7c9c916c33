-- ===== src/Shard.antt =====
-- src/core/tensor_sharded_ops.cpp, tensor_sharded_ops.h and include/astate/sharded_key.h: which
-- candidate shards cover a target shard, and what is copied from each.
pub mod Types
pub mod Flat
pub mod Digits
pub mod Blocks
pub mod Rows
mod Intervals
pub mod Cover
mod Merge
pub mod Coverage
pub mod Copy
pub mod Find
mod CopyCheck
pub mod Intersect
pub mod Regions
pub mod Validate
pub mod Complete
pub mod Returns
mod Tests
