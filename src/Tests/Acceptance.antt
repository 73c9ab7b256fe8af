-- ===== src/Tests/Acceptance.antt =====
-- Instances for the transitions that a store accepts.
use auto_code.State.Validation.{as_rejected}
use auto_code.Common.{Bool, ap, guard, ◌>>◌, true, none, some, ◌≡◌, refl, ok, Result}
use auto_code.Contracts.Enums.{
  RunDisposition, RunDisposition-discrete, PreparationPhase-discrete, Stage-discrete,
  for_every_stage,
}
use auto_code.Contracts.Equality.{
  PendingExternalRequest_Eq, RunState-eq_self, EffectEvent-discrete,
  PersistedBranchBinding-discrete,
}
use auto_code.Contracts.Json.{str}
use auto_code.Contracts.RunState.{RunState}
use auto_code.Contracts.RunState.Validation.{
  validate_state, any_binding, authorized_iteration_limit,
}
use auto_code.Contracts.RunState.Checks.{output_of}
use auto_code.Contracts.Authorizations.{granted}
use auto_code.State.Reconciliation.{validate_pending_lifecycle}
use auto_code.State.Validation.{validate_kept_fields}
use auto_code.Common.{◌⊎◌}
use auto_code.State.Acceptance.Clearing.{Waits, Answered, validate_transition-pending}
use auto_code.State.Acceptance.{
  validate_after, validate_validated, has_identifiers, is_bound_to, validate_from,
  validate_successor, validate_transition,
}
use auto_code.State.Acceptance.Extends.{Continues}
use auto_code.State.Acceptance.History.{
  History, start, accept, History-Continues, History-abandoned,
}
use auto_code.State.Context.{terminal_immutable, StateGeneration, StoreContext}
use auto_code.Contracts.Requests.{McpActionRequest, reconstruct_request}
use auto_code.Contracts.Requests.Creation.{pending_of}
use auto_code.State.Transitions.{validate_statuses}
use auto_code.Contracts.Equality.{EffectEvent_Eq}
use auto_code.State.Pending.{waiting_for, intended}
use auto_code.Tests.State.{request}
use auto_code.State.Receipts.{GenerationLoader}
use auto_code.Tests.Fixtures.{hasher, externals, fresh}

abbrev pub store : StoreContext
store = record {
  run_id = "run-1";
  externals = externals;
  verifier = none;
  receipt_authority = none;
  lower = λ t. t;
  is_persistable = λ _. true;
  bound_repository = ok (some "repo");
  verify_ed25519 = λ _ _ _. true;
  read_receipt = λ _ _. none;
  read_proof = λ _ _. none;
  dump_failure = λ _. str "failure";
  dump_state = λ _. str "state";
}

abbrev no_history : GenerationLoader
no_history = λ _ _. none

abbrev pub given_up : RunState
given_up = record fresh { disposition = RunDisposition.abandoned }

abbrev pub generation_of : RunState → StateGeneration
generation_of s = record { revision = 3; state_hash = "hash"; state = s }

given_up-valid : validate_state externals given_up ≡ ok given_up
unfolding validate_state any_binding PreparationPhase-discrete Stage-discrete
    authorized_iteration_limit granted for_every_stage output_of
given_up-valid = refl

saves_again :
    validate_transition store no_history (some (generation_of given_up)) given_up ≡ ok given_up
unfolding validate_transition validate_state any_binding PreparationPhase-discrete Stage-discrete
    RunDisposition-discrete authorized_iteration_limit granted for_every_stage output_of
    PersistedBranchBinding-discrete EffectEvent-discrete
saves_again =
    ap (λ (b : Bool). as_rejected (guard b terminal_immutable) >> Result.ok given_up)
      (RunState-eq_self given_up)

abbrev given_up_history : History given_up given_up
given_up_history =
    accept store no_history (generation_of given_up) given_up given_up start saves_again

History-Continues_example : Continues given_up given_up
History-Continues_example = History-Continues given_up given_up given_up_history

History-abandoned_example : given_up ≡ given_up
History-abandoned_example = History-abandoned given_up given_up refl given_up_history

abbrev sealed : McpActionRequest
sealed = record request { effect_hash = "{}"; request_hash = "{}" }

abbrev waiting : RunState
waiting = waiting_for hasher 1 100 sealed fresh

waiting-valid : validate_state externals waiting ≡ ok waiting
unfolding validate_state any_binding PreparationPhase-discrete Stage-discrete
    authorized_iteration_limit granted for_every_stage output_of waiting_for reconstruct_request
waiting-valid = refl

waiting_lifecycle : validate_pending_lifecycle store waiting waiting 3 "hash" ≡ ok tt
unfolding validate_state any_binding PreparationPhase-discrete Stage-discrete
    RunDisposition-discrete authorized_iteration_limit granted for_every_stage output_of waiting_for
    reconstruct_request validate_pending_lifecycle
waiting_lifecycle = rw (
    (PendingExternalRequest_Eq.beq_iff (pending_of hasher sealed) (pending_of hasher sealed)).1
      refl)

waiting_kept : validate_kept_fields waiting waiting ≡ ok tt
unfolding validate_state any_binding PreparationPhase-discrete Stage-discrete
    RunDisposition-discrete authorized_iteration_limit granted for_every_stage output_of waiting_for
    reconstruct_request validate_kept_fields
waiting_kept = rw ((EffectEvent_Eq.beq_iff (intended 1 100 sealed) (intended 1 100 sealed)).1 refl)

waiting_from :
    validate_from store no_history waiting.disposition (generation_of waiting) waiting ≡ ok tt
unfolding validate_state any_binding PreparationPhase-discrete Stage-discrete
    RunDisposition-discrete authorized_iteration_limit granted for_every_stage output_of waiting_for
    reconstruct_request validate_from validate_statuses
waiting_from = refl

waiting_after : validate_after store no_history (some (generation_of waiting)) waiting ≡ ok tt
unfolding validate_after validate_successor
waiting_after = rw (waiting_lifecycle, waiting_kept, waiting_from)

waits_on : validate_transition store no_history (some (generation_of waiting)) waiting ≡ ok waiting
unfolding validate_transition validate_validated has_identifiers is_bound_to waiting_for
waits_on = rw (waiting-valid, waiting_after)

validate_transition-pending_example :
    Waits store waiting waiting (pending_of hasher sealed)
    ⊎ Answered store waiting waiting (pending_of hasher sealed)
unfolding waiting_for
validate_transition-pending_example =
    validate_transition-pending store no_history (generation_of waiting) waiting
      (pending_of hasher sealed) refl waits_on
