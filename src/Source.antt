-- ===== src/Source.antt =====
-- stream2_source.go: the receiving side of a stream.
pub mod Frames
pub mod ByteSource
pub mod Drain
pub mod Reader
pub mod Gains
