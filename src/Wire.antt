-- ===== src/Wire.antt =====
-- src/core/atensor.h and src/transport/atensor_serializer.cpp: the description of a tensor, and its
-- encoding in bytes.
pub mod Meta
pub mod Bytes
pub mod Serialize
mod Codec
mod Roundtrip
mod Tests
