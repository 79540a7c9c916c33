-- ===== src/Protocol.antt =====
-- src/protocol/messages.cpp: the messages between nodes, as JSON values.
pub mod Json
pub mod Nodes
pub mod Tensors
pub mod Decimal
pub mod Keys
pub mod Publish
mod Trees
pub mod Documents
pub mod Roundtrip
mod Tests
