-- ===== src/Supervisor.antt =====
-- src/auto_code/supervisor.py: one step of a run. Everything that a step reads or writes outside
-- itself is a world `W`: the store, the checkpoint registry, and what the executor touches.
pub mod Step
pub mod Reports
pub mod Results
pub mod Sequence
pub mod OnDisk
use auto_code.Common.{
  ℕ, String, Bool, true, false, not, ◌&&◌, ◌||◌, Option, none, some, List, [], ◌∷◌, ◌++◌, num_eq,
  ◌==◌, text_Eq, option_Eq, is_some, last, Result, ok, err, if◌then◌else◌,
}
use auto_code.Common.Actions.{Action, ◌>>=◌, returned, attempt}
use auto_code.Contracts.Enums.{
  Stage, Stage_Eq, Stage-discrete, FailureClass, FailureSource, FindingKind, RunDisposition,
  RunDisposition_Eq, RunDisposition-discrete, StepKind,
}
use auto_code.Contracts.Evidence.{EvidenceRef, Checkpoint, FailureRecord, StageOutput}
use auto_code.Contracts.Requests.{McpActionRequest, PendingExternalRequest, reconstruct_request}
use auto_code.Contracts.Steps.{StepResult, has_result_shape, ReviewResult}
use auto_code.Contracts.Externals.{Externals}
use auto_code.Contracts.RunState.{RunState}
use auto_code.Contracts.RunState.Checks.{StateError}
use auto_code.Contracts.RunState.Validation.{model_copy}
use auto_code.State.Context.{StateGeneration}
use auto_code.Contracts.RunState.Iterations.{can_start_iteration, begin_iteration}
use auto_code.Router.{RegistryError, CheckpointAuthority, CheckpointExpectation, next_stage}
use auto_code.Router.Routing.{route_failure, apply_route}

pub record StageExecution : Type 0 where
  pub output_manifest_hash : String
  pub validator : String
  pub validator_version : String
  pub validation_receipt_hash : String
  pub evidence : List EvidenceRef
  pub review : Option ReviewResult

-- What the executor does: it returns one of three results or something else, or it raises.
pub data Outcome : Type 0 where
  executed : StageExecution → Outcome
  failed : FailureRecord → Outcome
  invalid_output raised unknown : Outcome

pub data SupervisorError : Type 0 where
  state_mismatch wrong_failure_class no_failure_recorded : SupervisorError
  invalid_step_result invalid_failure store_refused registry_refused : SupervisorError
  invalid_state : StateError → SupervisorError

-- `SupervisorDependencies`, with an expectation for every stage, and `str.lower`.
pub record Dependencies (W : Type 0) : Type 0 where
  pub run_id : String
  pub load : W → Result SupervisorError StateGeneration
  pub compare_and_swap : ℕ → String → RunState → Action SupervisorError W StateGeneration
  pub authority : W → CheckpointAuthority
  pub issue : Checkpoint → Action SupervisorError W Checkpoint
  pub expectations : Stage → CheckpointExpectation
  pub execute : Stage → RunState → W → Outcome × W
  pub lower : String → String
  pub externals : Externals

unfoldable pub failure_of :
    FailureClass → FailureSource → FindingKind → Option Stage → List EvidenceRef → FailureRecord
failure_of class source kind owner evidence = record {
  failure_class = class;
  failure_source = source;
  finding_kind = kind;
  owner_stage = owner;
  cited_ids = [];
  evidence_refs = evidence;
  observed_revision = none;
}

-- `_supervisor_failure`
unfoldable pub supervisor_failure : FindingKind → FailureRecord
unfolding failure_of
supervisor_failure kind =
    failure_of FailureClass.orchestration FailureSource.supervisor kind none []

-- `_orchestration_failure`
unfoldable pub orchestration_failure : Stage → FailureRecord
unfolding failure_of
orchestration_failure stage =
    failure_of FailureClass.orchestration FailureSource.artifact FindingKind.invalid_unit_output
      (some stage) []

unfoldable pub budget_failure : FailureRecord
unfolding failure_of
budget_failure =
    failure_of FailureClass.budget_exhausted FailureSource.supervisor
      FindingKind.requirements_mismatch none []

unfoldable pub invalid_output_failure : Stage → List EvidenceRef → FailureRecord
unfolding failure_of
invalid_output_failure stage evidence =
    failure_of FailureClass.invalid_output FailureSource.artifact FindingKind.invalid_unit_output
      (some stage) evidence

-- `_latest_failure`
unfoldable pub latest_failure : RunState → FailureRecord
unfolding supervisor_failure
latest_failure s = elim (last s.failure_history) [
  | some f ↦ f
  | none ↦ supervisor_failure FindingKind.invalid_routing
]

abbrev pub checked_result : StepResult → Result SupervisorError StepResult
checked_result r = if has_result_shape r then ok r else err invalid_step_result

abbrev pub result_of :
    StepKind → StateGeneration → Option Stage → Option FailureRecord → List EvidenceRef → StepResult
result_of kind g stage failure evidence = record {
  kind = kind;
  run_id = g.state.run_id;
  state_revision = g.revision;
  state_hash = g.state_hash;
  request_id = none;
  stage = stage;
  action = none;
  failure = failure;
  evidence = evidence;
}

-- `_result`
unfoldable pub result :
    StepKind
    → StateGeneration
    → Option Stage
    → Option FailureRecord
    → List EvidenceRef
    → Result SupervisorError StepResult
unfolding has_result_shape
result kind g stage failure evidence = checked_result (result_of kind g stage failure evidence)

-- The `kind` of `_failure_result`
unfoldable pub failure_kind : RunDisposition → StepKind
failure_kind RunDisposition.active = StepKind.iteration_failed
failure_kind RunDisposition.repair_required = StepKind.repair_required
failure_kind _ = StepKind.human_review

-- `_failure_result`, at the last failure of the history, which the callers index.
unfoldable pub failure_result_at :
    StateGeneration → Option FailureRecord → Result SupervisorError StepResult
unfolding result failure_kind
failure_result_at g none = err no_failure_recorded
failure_result_at g (some f) =
    result (failure_kind g.state.disposition) g none (some f) f.evidence_refs

unfoldable pub failure_result : StateGeneration → Result SupervisorError StepResult
unfolding failure_result_at
failure_result g = failure_result_at g (last g.state.failure_history)

abbrev pub state_result : {A : Type 0} → Result StateError A → Result SupervisorError A
state_result (ok a) = ok a
state_result (err e) = err (invalid_state e)

abbrev pub registry_result : {A : Type 0} → Result RegistryError A → Result SupervisorError A
registry_result (ok a) = ok a
registry_result (err e) = err registry_refused

-- `_pending_action`
unfoldable pub pending_action : Externals → RunState → Option McpActionRequest
unfolding reconstruct_request
pending_action x s = elim s.pending_external_request [
  | none ↦ none
  | some p ↦ reconstruct_request x.hasher x.request_fields p s.run_id
]

abbrev pub action_result_of : StateGeneration → McpActionRequest → StepResult
action_result_of g action = record {
  kind = StepKind.mcp_action;
  run_id = g.state.run_id;
  state_revision = g.revision;
  state_hash = g.state_hash;
  request_id = some action.request_id;
  stage = none;
  action = some action;
  failure = none;
  evidence = [];
}

-- The result of a wait for an external request.
unfoldable pub action_result :
    StateGeneration → McpActionRequest → Result SupervisorError StepResult
unfolding has_result_shape
action_result g action = checked_result (action_result_of g action)
