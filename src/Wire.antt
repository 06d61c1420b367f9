-- ===== src/Wire.antt =====
-- The wire encoding: common/include/dz/endian.hpp and common/src/frame.cpp.
pub mod Endian
pub mod Header
pub mod Stream
pub mod Endpoint
pub mod Writer
pub mod Reader
pub mod Reads
pub mod Ensures
