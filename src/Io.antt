-- ===== src/Io.antt =====
-- inc/io: byte order and the streams.
pub mod Bytes
pub mod Search
pub mod Stream
pub mod FixedOutput
pub mod FixedInput
pub mod Segmented
pub mod Serializable
