-- ===== src/Protocol/Roundtrip.antt =====
-- What is serialized is read back.
pub mod Nodes
pub mod Tensors
pub mod Keys
pub mod Entries
pub mod Publish
