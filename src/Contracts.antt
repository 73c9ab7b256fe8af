-- ===== src/Contracts.antt =====
-- src/auto_code/contracts.py: the shared contracts. `Enums` to `Bindings` hold the data, `Effects`
-- the effect ledger, `Tasks` and `Authorizations` the manifests and grants, `Requests` the pending
-- external request, and `RunState` the aggregate with its validator.
pub mod Enums
pub mod Evidence
pub mod Effects
pub mod Json
pub mod Externals
pub mod Tasks
pub mod Authorizations
pub mod Requests
pub mod Bindings
pub mod RunState
pub mod Steps
pub mod Equality
pub mod Receipts
