-- ===== src/Tests.antt =====
-- Runs of the definitions, and the theorems applied to them.
mod Zones
mod Runs
mod Witnesses
mod Checks
mod Paging
mod Writers
mod Registry
mod Lifecycle
mod Faults
mod Opening
mod Cloning
