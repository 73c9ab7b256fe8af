-- ===== src/Supervisor/Step.antt =====
-- src/auto_code/supervisor.py: `step`, `record_failure` and `execute_and_checkpoint`.
use auto_code.Common.{
  ℕ, String, true, false, not, ◌&&◌, ◌||◌, Option, none, some, List, [], ◌∷◌, ◌++◌, num_eq, ◌==◌,
  text_Eq, option_Eq, Result, ok, err, if◌then◌else◌,
}
use auto_code.Common.Actions.{Action, ◌>>=◌, returned, attempt}
use auto_code.Contracts.Enums.{
  Stage, Stage_Eq, Stage-discrete, FailureClass, FailureSource, FindingKind, RunDisposition,
  RunDisposition_Eq, RunDisposition-discrete, StepKind,
}
use auto_code.Contracts.Evidence.{EvidenceRef, Checkpoint, FailureRecord}
use auto_code.Contracts.Requests.{McpActionRequest}
use auto_code.Contracts.Steps.{StepResult, ReviewResult}
use auto_code.Contracts.RunState.{RunState}
use auto_code.Contracts.RunState.Validation.{model_copy}
use auto_code.Contracts.RunState.Iterations.{can_start_iteration, begin_iteration}
use auto_code.Router.{CheckpointExpectation, next_stage}
use auto_code.Router.Routing.{route_failure, apply_route}
use auto_code.State.Context.{StateGeneration}
use auto_code.Supervisor.{
  StageExecution, Outcome, executed, failed, invalid_output, raised, unknown, SupervisorError,
  state_mismatch, wrong_failure_class, invalid_failure, Dependencies, failure_of,
  supervisor_failure, orchestration_failure, budget_failure, invalid_output_failure, latest_failure,
  result, failure_result, state_result, registry_result, pending_action, action_result,
}

-- The checkpoint that the supervisor asks the authority for, which gives it an identifier.
unfoldable pub requested : CheckpointExpectation → Stage → StageExecution → Checkpoint
requested expectation stage o = record {
  checkpoint_id = none;
  stage = stage;
  contract_hash = expectation.contract_hash;
  input_hashes = expectation.input_hashes;
  output_manifest_hash = o.output_manifest_hash;
  validator = o.validator;
  validator_version = o.validator_version;
  validation_receipt_hash = o.validation_receipt_hash;
  evidence = o.evidence;
}

-- The `updates` of `execute_and_checkpoint`.
abbrev pub checkpointed : Stage → Checkpoint → RunState → RunState
checkpointed stage c s = record s {
  checkpoints = λ other. if other == stage then some c else s.checkpoints other;
  stage_outputs =
      s.stage_outputs ++ record { stage = stage; content_hash = c.output_manifest_hash } ∷ [];
  current_stage = stage;
}

-- The `update` of `_checkpoint_reviewer`.
abbrev pub approved_by : String → Checkpoint → RunState → RunState
approved_by output_hash c s = record (checkpointed Stage.reviewer c s) {
  review_result = some output_hash;
  iteration_open = false;
  finalization_eligible = true;
}

-- The failure of a review that does not approve. A missing classification is refused.
unfoldable pub rejection : ReviewResult → Result SupervisorError FailureRecord
rejection r = build r.failure_class r.failure_source r.finding_kind
  where
    build :
        Option FailureClass
        → Option FailureSource
        → Option FindingKind
        → Result SupervisorError FailureRecord
    build (some class) (some source) (some kind) = ok (record {
      failure_class = class;
      failure_source = source;
      finding_kind = kind;
      owner_stage = r.owner_stage;
      cited_ids = r.cited_ids;
      evidence_refs = r.evidence;
      observed_revision = none;
    })
    build _ _ _ = err invalid_failure

module _ {W : Type 0} (d : Dependencies W) where
  abbrev pub Step : Type 0 → Type 0
  Step A = Action SupervisorError W A

  abbrev pub swap : StateGeneration → RunState → Step StateGeneration
  swap g s = d.compare_and_swap g.revision g.state_hash s

  -- `_route_failure`, and so `_human_review`
  unfoldable pub route : StateGeneration → FailureRecord → Step StepResult
  unfolding apply_route route_failure failure_result
  route g f = do
    routed ← returned (state_result (apply_route d.externals g.state (route_failure g.state f)))
    persisted ← swap g routed
    returned (failure_result persisted)

  -- The checkpoint of a stage, and the state with the update stored.
  unfoldable pub store_checkpoint :
      StateGeneration
      → Stage
      → StageExecution
      → (Checkpoint → RunState → RunState)
      → Step StateGeneration
  unfolding requested model_copy
  store_checkpoint g stage o update = do
    c ← d.issue (requested (d.expectations stage) stage o)
    s ← returned (state_result (model_copy d.externals g.state (update c)))
    swap g s

  -- `_checkpoint_reviewer`
  unfoldable pub checkpoint_reviewer : StateGeneration → StageExecution → Step StepResult
  unfolding route store_checkpoint rejection orchestration_failure supervisor_failure result
  checkpoint_reviewer g o = elim o.review [
    | none ↦ route g (orchestration_failure Stage.reviewer)
    | some review ↦
        if not (g.state.review_manifest == some review.review_manifest_hash)
        then route g (supervisor_failure FindingKind.invalid_routing)
        else if not review.approved
        then (do f ← returned (rejection review); route g f)
        else attempt (store_checkpoint g Stage.reviewer o (approved_by o.output_manifest_hash))
            (λ persisted.
              returned (result StepKind.ready_to_finalize persisted none none o.evidence))
            (route g (orchestration_failure Stage.reviewer))
  ]

  -- What follows the executor's outcome.
  unfoldable pub settle : StateGeneration → Stage → Outcome → Step StepResult
  unfolding route store_checkpoint checkpoint_reviewer orchestration_failure invalid_output_failure
      result Stage-discrete
  settle g stage raised = route g (orchestration_failure stage)
  settle g stage unknown = route g (orchestration_failure stage)
  settle g stage invalid_output = route g (invalid_output_failure stage [])
  settle g stage (failed f) = route g f
  settle g stage (executed o) =
      if stage == Stage.reviewer
      then checkpoint_reviewer g o
      else attempt (store_checkpoint g stage o (checkpointed stage))
          (λ persisted. returned (result StepKind.continue persisted (some stage) none o.evidence))
          (route g (orchestration_failure stage))

  abbrev pub settled : StateGeneration → Stage → Outcome × W → Result SupervisorError StepResult × W
  settled g stage (outcome, w) = settle g stage outcome w

  unfoldable pub execute_and_checkpoint : StateGeneration → Stage → Step StepResult
  unfolding settle route supervisor_failure Stage-discrete
  execute_and_checkpoint g stage w =
      if not (g.state.current_stage == stage) || not g.state.iteration_open
      then route g (supervisor_failure FindingKind.invalid_routing) w
      else settled g stage (d.execute stage g.state w)

  -- The branch of a wait, on the request that is reconstructed.
  unfoldable pub waiting_result : StateGeneration → Option McpActionRequest → Step StepResult
  unfolding route action_result supervisor_failure
  waiting_result g (some action) = returned (action_result g action)
  waiting_result g none = route g (supervisor_failure FindingKind.invalid_routing)

  -- `_gated_result`
  unfoldable pub gated_result : StateGeneration → RunDisposition → Step StepResult
  unfolding waiting_result pending_action result latest_failure supervisor_failure
  gated_result g RunDisposition.waiting_mcp = waiting_result g (pending_action d.externals g.state)
  gated_result g RunDisposition.repair_required =
      returned (result StepKind.repair_required g none (some (latest_failure g.state)) [])
  gated_result g RunDisposition.human_review =
      returned (result StepKind.human_review g none (some (latest_failure g.state)) [])
  gated_result g RunDisposition.done = returned (result StepKind.done g none none [])
  gated_result g RunDisposition.abandoned = returned (result StepKind.done g none none [])
  gated_result g RunDisposition.active = returned (
      result StepKind.human_review g none (some (supervisor_failure FindingKind.invalid_routing))
        [])

  -- The end of `step`, for a stage that is not bound.
  unfoldable pub run_stage : StateGeneration → Stage → Step StepResult
  unfolding route execute_and_checkpoint begin_iteration budget_failure can_start_iteration
  run_stage g stage =
      if g.state.iteration_open
      then execute_and_checkpoint g stage
      else if not (can_start_iteration g.state)
      then route g budget_failure
      else (do
        s ← returned (state_result (begin_iteration d.externals g.state))
        opened ← swap g s
        execute_and_checkpoint opened stage)

  unfoldable pub advance : StateGeneration → Option Stage → Step StepResult
  unfolding run_stage route result supervisor_failure
  advance g (some stage) = run_stage g stage
  advance g none =
      if not g.state.iteration_open && g.state.finalization_eligible
      then returned (result StepKind.ready_to_finalize g none none [])
      else route g (supervisor_failure FindingKind.invalid_routing)

  -- `step` on the generation that was loaded.
  unfoldable pub step_from : StateGeneration → Step StepResult
  unfolding advance gated_result next_stage RunDisposition-discrete
  step_from g w =
      if g.state.disposition == RunDisposition.active
      then (do
        stage ← returned (
            registry_result
              (next_stage g.state (λ stage. some (d.expectations stage)) (d.authority w)))
        advance g stage)
          w
      else gated_result g g.state.disposition w

  unfoldable pub step : String → ℕ → String → Step StepResult
  unfolding step_from
  step run_id revision state_hash w =
      if not (run_id == d.run_id)
      then (err state_mismatch, w)
      else (do
        g ← returned (d.load w)
        (if num_eq g.revision revision && g.state_hash == d.lower state_hash
            then step_from g
            else returned (err state_mismatch)))
          w

  -- The failure that `record_failure` makes of its arguments.
  unfoldable pub recorded_failure :
      FailureClass → Stage → List EvidenceRef → Result SupervisorError FailureRecord
  unfolding failure_of invalid_output_failure
  recorded_failure FailureClass.product owner evidence = ok (
      failure_of FailureClass.product FailureSource.review FindingKind.implementation_mismatch
        (some owner) evidence)
  recorded_failure FailureClass.invalid_output owner evidence =
      ok (invalid_output_failure owner evidence)
  recorded_failure _ owner evidence = err wrong_failure_class

  unfoldable pub record_failure : FailureClass → Stage → List EvidenceRef → Step StepResult
  unfolding recorded_failure route
  record_failure class owner evidence w =
      (do f ← returned (recorded_failure class owner evidence); g ← returned (d.load w); route g f)
        w
