-- ===== src/Contracts/RunState.antt =====
-- src/auto_code/contracts.py: `RunState`. The mapping of checkpoints is a function of the stage.
-- The two `float` waits are numbers of units of a fixed size. The validator is in `Validation`.
pub mod Checks
pub mod Validation
pub mod Iterations
use auto_code.Common.{ℕ, String, Bool, false, Option, none, List, []}
use auto_code.Contracts.Enums.{Stage, PreparationPhase, RunDisposition}
use auto_code.Contracts.Evidence.{EvidenceRef, Checkpoint, FailureRecord, StageOutput}
use auto_code.Contracts.Effects.{EffectEvent}
use auto_code.Contracts.Tasks.{TaskDefinitionManifest, TaskStatusManifest}
use auto_code.Contracts.Authorizations.{HumanAuthorization}
use auto_code.Contracts.Requests.{PendingExternalRequest}
use auto_code.Contracts.Bindings.{
  RunnerIdentity, TrustedPreparationInputRef, PersistedBranchBinding, FinalizationEvidence,
  IndexReleaseBinding, IndexReleaseReceipt,
}

pub record RunState : Type 0 where
  pub run_id : String
  pub ticket_id : String
  pub repository_id : String
  pub max_crew_iterations : ℕ
  pub branch : Option String
  pub branch_binding : Option PersistedBranchBinding
  pub preparation_phase : PreparationPhase
  pub project_policy_hash : Option String
  pub preparation_input_ref : Option TrustedPreparationInputRef
  pub preparation_input_hash : Option String
  pub ticket_snapshot_hash : Option String
  pub compatibility_receipt_hash : Option String
  pub compatibility_receipt_ref : Option EvidenceRef
  pub disposition : RunDisposition
  pub compensated : Bool
  pub crew_iteration_count : ℕ
  pub iteration_open : Bool
  pub current_stage : Stage
  pub requirements_package : Option String
  pub change_outline : Option String
  pub stage_outputs : List StageOutput
  pub task_definition_manifest : Option TaskDefinitionManifest
  pub task_status_manifest : Option TaskStatusManifest
  pub product_change_manifest : Option String
  pub product_change_manifest_hash : Option String
  pub build_identity : Option String
  pub verification_result : Option String
  pub browser_result : Option String
  pub review_manifest : Option String
  pub review_result : Option String
  pub checkpoints : Stage → Option Checkpoint
  pub failure_history : List FailureRecord
  pub effect_ledger : List EffectEvent
  pub human_authorizations : List HumanAuthorization
  pub runner_identity : Option RunnerIdentity
  pub repair_runner_identity : Option RunnerIdentity
  pub repair_activation_public_key : Option String
  pub repair_activation_public_key_hash : Option String
  pub finalization_public_key : Option String
  pub finalization_public_key_hash : Option String
  pub restart_receipt_hash : Option String
  pub restart_receipt_request_hash : Option String
  pub repair_activation_receipt : Option String
  pub repair_activation_selection_proof : Option String
  pub pending_external_request : Option PendingExternalRequest
  pub prefinalization_ticket_projection : Option String
  pub commit_sha : Option String
  pub pushed_sha : Option String
  pub linear_done_receipt : Option String
  pub finalization_eligible : Bool
  pub finalization : Option String
  pub finalization_evidence : Option FinalizationEvidence
  pub finalization_index_released : Bool
  pub finalization_index_release_binding : Option IndexReleaseBinding
  pub finalization_index_release_receipt : Option IndexReleaseReceipt
  pub finalization_retry_wait_seconds : ℕ
  pub finalization_next_eligible_at : Option ℕ

-- `RunState(run_id=..., ticket_id=..., repository_id=..., max_crew_iterations=...)`
abbrev pub new_run_state : String → String → String → ℕ → RunState
new_run_state run_id ticket_id repository_id max_crew_iterations = record {
  run_id = run_id;
  ticket_id = ticket_id;
  repository_id = repository_id;
  max_crew_iterations = max_crew_iterations;
  branch = none;
  branch_binding = none;
  preparation_phase = PreparationPhase.selected;
  project_policy_hash = none;
  preparation_input_ref = none;
  preparation_input_hash = none;
  ticket_snapshot_hash = none;
  compatibility_receipt_hash = none;
  compatibility_receipt_ref = none;
  disposition = RunDisposition.active;
  compensated = false;
  crew_iteration_count = 0;
  iteration_open = false;
  current_stage = Stage.analyst;
  requirements_package = none;
  change_outline = none;
  stage_outputs = [];
  task_definition_manifest = none;
  task_status_manifest = none;
  product_change_manifest = none;
  product_change_manifest_hash = none;
  build_identity = none;
  verification_result = none;
  browser_result = none;
  review_manifest = none;
  review_result = none;
  checkpoints = λ _. none;
  failure_history = [];
  effect_ledger = [];
  human_authorizations = [];
  runner_identity = none;
  repair_runner_identity = none;
  repair_activation_public_key = none;
  repair_activation_public_key_hash = none;
  finalization_public_key = none;
  finalization_public_key_hash = none;
  restart_receipt_hash = none;
  restart_receipt_request_hash = none;
  repair_activation_receipt = none;
  repair_activation_selection_proof = none;
  pending_external_request = none;
  prefinalization_ticket_projection = none;
  commit_sha = none;
  pushed_sha = none;
  linear_done_receipt = none;
  finalization_eligible = false;
  finalization = none;
  finalization_evidence = none;
  finalization_index_released = false;
  finalization_index_release_binding = none;
  finalization_index_release_receipt = none;
  finalization_retry_wait_seconds = 0;
  finalization_next_eligible_at = none;
}
