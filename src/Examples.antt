-- ===== src/Examples.antt =====
-- The theorems at concrete inputs, and runs of the definitions.
mod Batches
mod Caches
mod Objects
mod Outboxes
mod Plans
mod Gates
mod Circuits
mod Scorecards
mod Shards
mod Mappings
mod Profiles
mod References
mod Retries
mod Executions
