-- ===== src/Pipeline.antt =====
-- pipeline/: the gateway, the portfolios, the risk layer, the event bus, and their orchestration.
pub mod Portfolio
pub mod Message
pub mod Risk
pub mod Idem
pub mod Gateway
pub mod Bus
pub mod State
pub mod Stages
