-- ===== src/Table.antt =====
-- src/core/in_memory_tensor_table.cpp: tensors by sequence number and key, read back by region.
pub mod Torch
pub mod Memory
mod Copy
mod Put
mod Search
mod Get
mod Tests
