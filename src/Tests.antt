-- ===== src/Tests.antt =====
-- A small image, runs of the operations on it, and the theorems at concrete inputs.
mod Image
mod Runs
mod Blocks
mod Paths
mod Files
mod Calls
mod Refusals
mod Growth
mod Entries
mod Removal
mod Changes
mod Listings
mod Consistency
mod Sessions
mod Full
mod Attributes
mod Isolated
