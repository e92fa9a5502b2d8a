-- ===== src/Tests.antt =====
-- Runs on concrete inputs, and each theorem at an input that meets its conditions.
mod Decimals
mod Aggregates
mod Queues
mod Pipelines
mod Messages
mod Interleavings
mod Edges
mod Stages
mod Runs
mod Stops
mod Delays
mod Blocks
