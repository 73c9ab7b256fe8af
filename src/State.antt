-- ===== src/State.antt =====
-- src/auto_code/state.py: the authoritative store of one run. `Acceptance` is the whole check of a
-- state against the one before it; the other modules are the parts that it is made of.
pub mod Transitions
pub mod Pending
pub mod Context
pub mod Reconciliation
pub mod Identifiers
pub mod Repair
pub mod Receipts
pub mod Preparation
pub mod Validation
pub mod Acceptance
pub mod Digests
pub mod Generations
