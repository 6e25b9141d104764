-- ===== src/Session/Invariant.antt =====
-- What holds of the two maps of a session, and of the requests in them.
pub mod Keys
pub mod Steps
pub mod Data
pub mod Reach
pub mod Closing
pub mod Ending
pub mod Handlers
