-- ===== src/Oracle.antt =====
-- x/oracle: the price feeds of the validators, and what is made of them at the end of a vote
-- window.
pub mod Types
pub mod Keys
pub mod Keeper
pub mod Feeder
pub mod Server
pub mod Aggregate
pub mod Twap
pub mod EndBlock
pub mod Invariants
pub mod Genesis
pub mod Queries
pub mod Tests
