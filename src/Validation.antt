-- ===== src/Validation.antt =====
-- crates/node/src/validation.rs: the stream that validates the blocks of the database in turn, with
-- the errors of crates/node/src/error.rs.
pub mod Errors
pub mod Step
pub mod Next
pub mod Ahead
pub mod Recorded
pub mod GoesOn
pub mod Termination
pub mod Recovery
pub mod Progress
mod Tests
