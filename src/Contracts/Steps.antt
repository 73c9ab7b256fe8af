-- ===== src/Contracts/Steps.antt =====
-- src/auto_code/contracts.py: `StepResult` and what the supervisor reads of a `ReviewResult`.
use auto_code.Common.{
  ℕ, String, Bool, true, false, not, ◌&&◌, Option, some, List, ◌==◌, text_Eq, option_Eq, is_some,
  if◌then◌else◌,
}
use auto_code.Contracts.Enums.{Stage, StepKind, FailureClass, FailureSource, FindingKind}
use auto_code.Contracts.Evidence.{EvidenceRef, FailureRecord}
use auto_code.Contracts.Requests.{McpActionRequest}
use auto_code.Contracts.RunState.Checks.{if_some}

pub record StepResult : Type 0 where
  pub kind : StepKind
  pub run_id : String
  pub state_revision : ℕ
  pub state_hash : String
  pub request_id : Option String
  pub stage : Option Stage
  pub action : Option McpActionRequest
  pub failure : Option FailureRecord
  pub evidence : List EvidenceRef

-- The kinds whose result carries a failure.
unfoldable pub is_failed_kind : StepKind → Bool
is_failed_kind StepKind.iteration_failed = true
is_failed_kind StepKind.repair_required = true
is_failed_kind StepKind.human_review = true
is_failed_kind _ = false

unfoldable pub has_action_shape : StepResult → StepKind → Bool
has_action_shape r StepKind.mcp_action =
    if_some r.action (λ a. r.request_id == some a.request_id && a.run_id == r.run_id)
    && is_some r.action
has_action_shape r _ = not (is_some r.action) && not (is_some r.request_id)

unfoldable pub has_stage_shape : StepResult → StepKind → Bool
has_stage_shape r StepKind.continue = is_some r.stage
has_stage_shape r _ = not (is_some r.stage)

-- `validate_result_shape` raises nothing.
unfoldable pub has_result_shape : StepResult → Bool
unfolding has_action_shape has_stage_shape is_failed_kind
has_result_shape r =
    has_action_shape r r.kind
    && (if is_failed_kind r.kind then is_some r.failure else not (is_some r.failure))
    && has_stage_shape r r.kind

pub record ReviewResult : Type 0 where
  pub approved : Bool
  pub review_manifest_hash : String
  pub failure_class : Option FailureClass
  pub failure_source : Option FailureSource
  pub finding_kind : Option FindingKind
  pub owner_stage : Option Stage
  pub cited_ids : List String
  pub evidence : List EvidenceRef
