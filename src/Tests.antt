-- ===== src/Tests.antt =====
-- Runs of the models at concrete inputs, and instances of the theorems.
mod Fixtures
mod Contracts
mod Router
mod State
mod Acceptance
mod Generations
mod Registry
mod OnDisk
mod Supervisor
mod Index
mod Linear
mod Verification
mod Manifests
