-- ===== src/Bridge.antt =====
-- bridge/bridge.h and bridge/bridge.c: the flat interface over one pipeline per symbol.
pub mod State
pub mod Registry
pub mod Staging
pub mod Submit
pub mod Process
