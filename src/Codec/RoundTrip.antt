-- ===== src/Codec/RoundTrip.antt =====
-- What the writer sends, the reader reads back.
pub mod Steps
pub mod Packets
pub mod Sessions
pub mod Inversion
pub mod Ends
pub mod Truncation
