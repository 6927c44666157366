-- ===== src/Tests.antt =====
-- The theorems at concrete inputs that meet their hypotheses.
mod Books
mod Accounts
mod Gateways
mod Rings
mod Trees
mod Engines
mod Pipelines
mod Queues
mod Bridges
mod Avls
