-- ===== src/Codec.antt =====
-- codec/: packets, their flags and their header, and the readers and writers of them.
pub mod Flag
pub mod Stream
pub mod Packet
pub mod Reader
pub mod Writer
pub mod RoundTrip
