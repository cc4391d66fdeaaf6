-- ===== src/Tests.antt =====
-- Runs of the modelled functions on concrete values, and each theorem with hypotheses at one of them.
pub mod Tasks
pub mod Slabs
pub mod Pools
pub mod Rings
pub mod Runs
pub mod Slots
pub mod Futures
pub mod Loops
pub mod Accounts
pub mod Setups
pub mod Finishes
pub mod Servers
pub mod Streams
