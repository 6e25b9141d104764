-- ===== src/Examples.antt =====
-- Runs of the model on small inputs, and the theorems applied to them.
pub mod Fixtures
mod Codec
mod Streams
mod Session
mod Wire
mod SourceCall
mod Failure
mod Tools
