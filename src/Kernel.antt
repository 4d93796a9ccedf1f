-- ===== src/Kernel.antt =====
-- The files of src/kernel: buffers, streams and messages.
pub mod Buffer
pub mod Codec
pub mod Format
pub mod Flv
pub mod Ts
