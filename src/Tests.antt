-- ===== src/Tests.antt =====
-- Witnesses and tests: a small volume on a device in memory, and the theorems at its chains.
pub mod Disk
mod Chains
mod Util
pub mod Nodes
mod Slots
pub mod Files
mod Boot
pub mod Dirents
pub mod Create
mod Names
mod Listings
mod Checks
mod Attributes
