-- ===== src/Daemon.antt =====
-- The feeder daemon (feeder/feeder), which asks price providers and submits feeds to x/oracle.
pub mod Aggregate
pub mod Cache
pub mod Config
pub mod PriceLoop
pub mod Broadcaster
pub mod SubmitLoop
mod Tests
