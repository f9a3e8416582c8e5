-- ===== src/Tests.antt =====
-- Runs on concrete inputs, and each theorem with hypotheses at an input that meets them.
mod Sample
mod Greedy
mod Stations
mod Slots
mod Optimizer
mod Cache
mod Ingestion
mod Fetch
mod Epoch
mod Tle
mod RateLimiter
mod Auth
mod Passes
mod Propagation
mod Pipeline
mod Detect
