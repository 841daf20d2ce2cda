-- ===== src/Wire.antt =====
-- include/bmdfh/protocol.hpp and src/common/protocol.cpp: the wire protocol.
pub mod Describe
pub mod Bytes
pub mod Structs
pub mod Layout
pub mod Packet
pub mod Fields
mod Examples
