-- ===== src/State/Context.antt =====
-- src/auto_code/state.py: what `RunStateStore` is made with, the errors that it raises, and the
-- receipt authority.
use auto_code.Common.{
  ℕ, String, Bool, ◌&&◌, Option, none, some, Result, ◌==◌, text_Eq, option_Eq, if◌then◌else◌,
}
use auto_code.Contracts.Evidence.{EvidenceRef, FailureRecord}
use auto_code.Contracts.Bindings.{RunnerIdentity}
use auto_code.Contracts.Receipts.{TrustedMcpReceipt, signed_payload, receipt_content_hash, Ed25519}
use auto_code.Contracts.Json.{Json, Hasher}
use auto_code.Contracts.Externals.{Externals}
use auto_code.Contracts.RunState.{RunState}
use auto_code.State.Transitions.{TransitionError, Verifier}
use auto_code.State.Pending.{PendingError}

-- A generation: a state with its revision and hash.
pub record StateGeneration : Type 0 where
  pub revision : ℕ
  pub state_hash : String
  pub state : RunState

-- Why `_validate_transition` refuses a state.
pub data Rejection : Type 0 where
  unsafe_value contract_violated unsafe_identifier other_run other_repository : Rejection
  not_initial immutable_field preparation_binding immutable_binding : Rejection
  branch_changed manifest_substituted prefix_lost terminal_immutable : Rejection
  pending : PendingError → Rejection
  pending_appends_own_event pending_replaced pending_not_authenticated : Rejection
  repair_not_verified : Rejection
  transition : TransitionError → Rejection
  runner_changed phase_not_allowed start_not_reconciled compensation_cleared : Rejection
  compensation_not_reconciled compensation_with_pending compensation_not_active : Rejection
  no_branch_failure phase_not_reset reset_not_authorized reset_with_pending no_restore : Rejection

pub data StoreError : Type 0 where
  state_not_found corrupt conflict invalid_argument : StoreError
  rejected : Rejection → StoreError

-- `BridgeReceiptAuthority`. Outside it: the canonical JSON file of a path, parsed as a receipt,
-- whether a path has the shape that `_receipt_path` and the name of the file ask for, the rendering
-- of a datetime, and the HMAC under its signing key.
pub record ReceiptAuthority : Type 0 where
  pub bridge_identity : String
  pub mcp_server_identity : String
  pub hasher : Hasher
  pub read : String → Option TrustedMcpReceipt
  pub names_receipt : String → String → Bool
  pub iso : ℕ → String
  pub hmac : String → String

module _ (authority : ReceiptAuthority) where
  -- `_signature_matches`
  unfoldable pub signature_matches : TrustedMcpReceipt → Bool
  unfolding signed_payload
  signature_matches r =
      r.bridge_identity == authority.bridge_identity
      && r.mcp_server_identity == authority.mcp_server_identity
      && r.bridge_signature
        == some (
            authority.hmac (authority.hasher.canonical_json_bytes (signed_payload authority.iso r)))

  -- `TrustedMcpReceipt.content_hash`, as the authority computes it.
  abbrev pub content_hash_of : TrustedMcpReceipt → String
  content_hash_of r = receipt_content_hash authority.hasher authority.iso r

  -- The receipt is the one that the evidence names, signed by the bridge.
  unfoldable pub is_receipt_of : EvidenceRef → TrustedMcpReceipt → Bool
  unfolding signature_matches
  is_receipt_of e r =
      r.relative_path == e.relative_path
      && authority.names_receipt r.relative_path r.receipt_id
      && content_hash_of r == e.sha256
      && signature_matches r

  -- The receipt that was read, if it is the one of the evidence.
  unfoldable pub verified : EvidenceRef → Option TrustedMcpReceipt → Option TrustedMcpReceipt
  unfolding is_receipt_of
  verified e none = none
  verified e (some r) = if is_receipt_of e r then some r else none

  -- `load_verified_receipt`; `none` where it raises.
  unfoldable pub load_verified_receipt : EvidenceRef → Option TrustedMcpReceipt
  unfolding verified
  load_verified_receipt e =
      if e.creator == "trusted-mcp-bridge" && e.media_type == "application/json"
      then verified e (authority.read e.relative_path)
      else none

-- What the store reads of a `RunnerActivationReceipt` or a `RunnerActivationSelectionProof`.
pub record Activation : Type 0 where
  pub content_hash : String
  pub request_hash : String
  pub run_id : String
  pub expected_revision : ℕ
  pub expected_state_hash : String
  pub failure_hash : String
  pub old_runner_identity : RunnerIdentity
  pub new_runner_identity : RunnerIdentity
  pub project_policy_hash : String
  pub activation_public_key_hash : String
  pub activation_receipt_hash : String

-- What a store works with. `read_receipt` and `read_proof` parse a canonical text and verify its
-- signature under a public key (`runner.py`); `is_persistable` is the screen for unsafe values;
-- `bound_repository` is the active run binding of the run, read from its file; the dumps are
-- pydantic's `model_dump` of a model.
pub record StoreContext : Type 0 where
  pub run_id : String
  pub externals : Externals
  pub verifier : Verifier
  pub receipt_authority : Option ReceiptAuthority
  pub lower : String → String
  pub is_persistable : Json → Bool
  pub bound_repository : Result StoreError (Option String)
  pub verify_ed25519 : Ed25519
  pub read_receipt : String → String → Option Activation
  pub read_proof : String → String → Option Activation
  pub dump_failure : FailureRecord → Json
  pub dump_state : RunState → Json
