-- ===== src/Tests.antt =====
-- The theorems at concrete inputs.
mod Sample
mod Decisions
mod People
mod Collection
mod Rules
mod Joining
mod Settings
mod SignOn
mod Leases
mod Refreshes
