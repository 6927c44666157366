-- ===== src/Engine.antt =====
-- engine/matching_engine.h and engine/matching_engine.c: the matching engine around one book.
pub mod State
pub mod Emit
pub mod Submit
pub mod Stops
pub mod Manage
pub mod Reach
