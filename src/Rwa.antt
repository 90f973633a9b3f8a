-- ===== src/Rwa.antt =====
-- x/rwa: the registry of real-world assets, their bonds, tokens and transfer restrictions.
pub mod Types
pub mod Keys
pub mod Messages
pub mod Keeper
pub mod Restriction
pub mod Funds
pub mod Server
pub mod Invariants
pub mod Genesis
pub mod Queries
pub mod Sound
pub mod Outcomes
pub mod Tests
