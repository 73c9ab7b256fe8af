-- ===== src/Tests/Supervisor.antt =====
-- Instances for the supervisor, over a store that is one generation.
use mathlib.Core.Path.{ap}
use auto_code.Common.{
  ℕ, ◌+◌, Bool, true, false, ◌&&◌, none, some, [], ◌∷◌, num_eq, ◌==◌, text_Eq, Result, ok, err, ◌≡◌,
  refl,
}
use auto_code.Common.Actions.{◌>>=◌, attempt}
use auto_code.Contracts.Enums.{
  for_every_stage, PreparationPhase-discrete, RunDisposition-discrete, FailureSource-discrete,
  FindingKind-discrete, FailureSource, Stage, Stage_Eq, Stage-discrete, FailureClass, FindingKind,
  RunDisposition, StepKind,
}
use auto_code.Contracts.Evidence.{FailureRecord}
use auto_code.Contracts.Steps.{StepResult}
use auto_code.Contracts.RunState.{RunState}
use auto_code.Contracts.RunState.Checks.{output_of}
use auto_code.Contracts.RunState.Validation.{
  any_binding, authorized_iteration_limit, validate_state,
}
use auto_code.Contracts.Authorizations.{granted}
use auto_code.Router.{descendants, invalidated, is_descendant, CheckpointExpectation, next_stage}
use auto_code.State.Context.{StateGeneration}
use auto_code.Supervisor.{
  StageExecution, executed, SupervisorError, store_refused, Dependencies, result_of, failure_of,
  supervisor_failure,
}
use auto_code.Supervisor.Step.{step, record_failure, checkpointed, requested}
use auto_code.Supervisor.Reports.{StoreLaws, Current}
use auto_code.Supervisor.Results.{step-Current, record_failure-Current}
use auto_code.Supervisor.Sequence.{step-misplaced}
use auto_code.Router.Routing.{
  active_retry, routed, route_class, product_owner, apply_route, route_failure,
}
use auto_code.Tests.Fixtures.{failure, externals, underway, underway-IsValid}
use auto_code.Tests.Router.{authority}

abbrev expectation : CheckpointExpectation
expectation = record { contract_hash = "contract"; input_hashes = ("upstream", "input") ∷ [] }

abbrev execution : StageExecution
execution = record {
  output_manifest_hash = "output";
  validator = "schema";
  validator_version = "v1";
  validation_receipt_hash = "receipt";
  evidence = [];
  review = none;
}

abbrev successor : ℕ → RunState → StateGeneration
successor revision s = record { revision = revision + 1; state_hash = "next"; state = s }

abbrev swap_if :
    Bool → ℕ → RunState → StateGeneration → Result SupervisorError StateGeneration × StateGeneration
swap_if true revision s w = (ok (successor revision s), successor revision s)
swap_if false revision s w = (err store_refused, w)

abbrev dependencies : Dependencies StateGeneration
dependencies = record {
  run_id = "run-1";
  load = λ w. ok w;
  compare_and_swap = λ revision hash s w.
      swap_if (num_eq w.revision revision && w.state_hash == hash) revision s w;
  authority = λ w. authority;
  issue = λ c w. (ok (record c { checkpoint_id = some "c" }), w);
  expectations = λ stage. expectation;
  execute = λ stage s w. (executed execution, w);
  lower = λ t. t;
  externals = externals;
}

swap_if-stored :
    (b : Bool) (revision : ℕ) (s : RunState) (w : StateGeneration) {g w' : StateGeneration}
    → swap_if b revision s w ≡ (ok g, w')
    → (g.state ≡ s) × (w' ≡ g)
swap_if-stored true revision s w h = (cc, cc)
swap_if-stored false revision s w h = absurd (refused (ap (λ p. p.0) h))
  where
    refused : {g : StateGeneration} → err store_refused ≡ ok g → ⊥
    refused e = cc

laws : StoreLaws dependencies
laws = record {
  stored = λ revision hash s w h.
      (swap_if-stored (num_eq w.revision revision && w.state_hash == hash) revision s w h).0;
  loaded = λ revision hash s w h.
      ap ok (swap_if-stored (num_eq w.revision revision && w.state_hash == hash) revision s w h).1;
}

abbrev stored_underway : StateGeneration
stored_underway = record { revision = 4; state_hash = "hash"; state = underway }

step-misplaced_example :
    (t : RunState) × (apply_route externals underway
        (route_failure underway (supervisor_failure FindingKind.invalid_routing))
      ≡ ok t)
    × (t.disposition ≡ RunDisposition.human_review)
    × ((e : SupervisorError) (w' : StateGeneration)
        → dependencies.compare_and_swap 4 "hash" t stored_underway ≡ (err e, w')
        → step dependencies "run-1" 4 "hash" stored_underway ≡ (err e, w'))
    × ((g' : StateGeneration) (w' : StateGeneration)
        → dependencies.compare_and_swap 4 "hash" t stored_underway ≡ (ok g', w')
        → step dependencies "run-1" 4 "hash" stored_underway ≡ (
          ok (
              result_of StepKind.human_review g' none
                (some (supervisor_failure FindingKind.invalid_routing))
                (supervisor_failure FindingKind.invalid_routing).evidence_refs),
          w',
        ))
unfolding next_stage Stage-discrete
step-misplaced_example =
    step-misplaced dependencies laws stored_underway Stage.architect_proposal "hash" stored_underway
      refl refl underway-IsValid refl refl refl (λ e. cc)

-- The next stage is the current one, and its execution succeeds.
abbrev at_proposal : StateGeneration
at_proposal = record {
  revision = 4;
  state_hash = "hash";
  state = record underway { current_stage = Stage.architect_proposal };
}

abbrev proposal_stored : StateGeneration
proposal_stored = successor 4 (
    checkpointed Stage.architect_proposal
      (record (requested expectation Stage.architect_proposal execution) {
        checkpoint_id = some "c";
      })
      at_proposal.state)

abbrev continued : StepResult
continued = result_of StepKind.continue proposal_stored (some Stage.architect_proposal) none []

proposal_runs : step dependencies "run-1" 4 "hash" at_proposal ≡ (ok continued, proposal_stored)
unfolding step requested Stage-discrete validate_state any_binding PreparationPhase-discrete
    authorized_iteration_limit granted for_every_stage output_of ◌>>=◌ attempt
proposal_runs = refl

step-Current_example : Current dependencies laws continued proposal_stored
step-Current_example = step-Current dependencies laws "run-1" 4 "hash" at_proposal proposal_runs

abbrev defect : FailureRecord
defect =
    failure FailureClass.product FailureSource.review FindingKind.implementation_mismatch
      (some Stage.programmer)

abbrev defect_stored : StateGeneration
defect_stored = successor 4 (
    routed (active_retry defect Stage.programmer)
      (invalidated (is_descendant Stage.programmer) Stage.programmer underway))

defect_recorded :
    record_failure dependencies FailureClass.product Stage.programmer [] stored_underway
    ≡ (ok (result_of StepKind.iteration_failed defect_stored none (some defect) []), defect_stored)
unfolding record_failure requested Stage-discrete validate_state any_binding
    PreparationPhase-discrete authorized_iteration_limit granted for_every_stage output_of ◌>>=◌
    RunDisposition-discrete FindingKind-discrete FailureSource-discrete failure_of descendants
    active_retry route_class product_owner
defect_recorded = refl

record_failure-Current_example :
    Current dependencies laws
      (result_of StepKind.iteration_failed defect_stored none (some defect) [])
      defect_stored
record_failure-Current_example =
    record_failure-Current dependencies laws FailureClass.product Stage.programmer []
      stored_underway defect_recorded
