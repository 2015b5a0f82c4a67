-- ===== src/Tests.antt =====
-- Runs of the definitions at concrete inputs, and the theorems at inputs that meet their hypotheses.
mod Translations
mod Breakers
mod Limits
mod Pools
mod Access
mod Costs
mod Dispatch
mod Routing
mod Edges
mod Logging
mod Backups
mod Streams
mod Gates
