-- ===== src/Protocol.antt =====
-- The files of src/protocol: the AMF0 codec.
pub mod Amf0
pub mod Chunk
pub mod Stream
pub mod Control
pub mod Command
