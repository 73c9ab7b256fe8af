-- ===== src/State/Preparation.antt =====
-- src/auto_code/state.py: `_validate_preparation_transition`.
use auto_code.Common.{
  Bool, true, false, not, ◌&&◌, ◌||◌, List, ◌==◌, text_Eq, option_Eq, is_some, Result, ok, ◌>>◌,
  guard, if◌then◌else◌,
}
use auto_code.Contracts.Enums.{
  EffectOutcome, EffectOutcome_Eq, RunDisposition, RunDisposition_Eq, PreparationPhase,
  PreparationPhase_Eq, HumanAuthorizationAction,
}
use auto_code.Contracts.Equality.{RunnerIdentity_Eq}
use auto_code.Contracts.Authorizations.{HumanAuthorization}
use auto_code.Contracts.RunState.{RunState}
use auto_code.Contracts.RunState.Checks.{◌⇒◌}
use auto_code.Contracts.RunState.Validation.{has_preparation_binding}
use auto_code.State.Context.{
  Rejection, StoreContext, runner_changed, phase_not_allowed, start_not_reconciled,
  compensation_cleared, compensation_not_reconciled, compensation_with_pending,
  compensation_not_active, no_branch_failure, phase_not_reset, reset_not_authorized,
  reset_with_pending, no_restore,
}
use auto_code.State.Receipts.{
  GenerationLoader, has_authenticated_reconciliation, has_reconciliation_appended,
  has_current_restore,
}
use auto_code.State.Transitions.{is_single}

-- `allowed`
unfoldable pub is_allowed_phase : PreparationPhase → PreparationPhase → Bool
is_allowed_phase PreparationPhase.selected PreparationPhase.selected = true
is_allowed_phase PreparationPhase.selected PreparationPhase.in_progress_requested = true
is_allowed_phase PreparationPhase.in_progress_requested PreparationPhase.in_progress_requested =
    true
is_allowed_phase PreparationPhase.in_progress_requested PreparationPhase.in_progress_confirmed =
    true
is_allowed_phase PreparationPhase.in_progress_confirmed PreparationPhase.in_progress_confirmed =
    true
is_allowed_phase PreparationPhase.in_progress_confirmed PreparationPhase.branch_created = true
is_allowed_phase PreparationPhase.in_progress_confirmed PreparationPhase.compensation_required =
    true
is_allowed_phase PreparationPhase.branch_created PreparationPhase.branch_created = true
is_allowed_phase PreparationPhase.branch_created PreparationPhase.ready = true
is_allowed_phase PreparationPhase.ready PreparationPhase.ready = true
is_allowed_phase PreparationPhase.compensation_required PreparationPhase.compensation_required =
    true
is_allowed_phase PreparationPhase.compensation_required PreparationPhase.selected = true
is_allowed_phase _ _ = false

-- The start of `_validate_preparation_transition`: the runner, the phase and the confirmation.
module _ (x : StoreContext) (load : GenerationLoader) (previous state : RunState) where
  abbrev moves : PreparationPhase → PreparationPhase → Bool
  moves before after = previous.preparation_phase == before && state.preparation_phase == after

  abbrev changes : RunDisposition → RunDisposition → Bool
  changes before after = previous.disposition == before && state.disposition == after

  -- A successful restore of the ticket is reconciled by this transition.
  unfoldable pub restores_ticket : Bool
  unfolding has_authenticated_reconciliation
  restores_ticket =
      has_authenticated_reconciliation x load previous state "restore_ticket_state"
        EffectOutcome.success

  unfoldable pub validate_phase : Result Rejection (Unit {0})
  unfolding has_authenticated_reconciliation is_allowed_phase
  validate_phase = do
    guard
        (previous.runner_identity == state.runner_identity
          || changes RunDisposition.repair_required RunDisposition.active)
        runner_changed
    guard (is_allowed_phase previous.preparation_phase state.preparation_phase) phase_not_allowed
    guard
        (moves PreparationPhase.in_progress_requested PreparationPhase.in_progress_confirmed
          ⇒ has_authenticated_reconciliation x load previous state "compare_and_start_ticket"
              EffectOutcome.success)
        start_not_reconciled

  -- The flag `compensated`.
  unfoldable pub validate_compensated : Result Rejection (Unit {0})
  unfolding restores_ticket
  validate_compensated = do
    guard (previous.compensated ⇒ state.compensated) compensation_cleared
    guard
        ((not previous.compensated && state.compensated)
          ⇒ (moves PreparationPhase.compensation_required PreparationPhase.compensation_required
              && state.disposition == RunDisposition.human_review
              && restores_ticket))
        compensation_not_reconciled
    guard
        ((state.compensated
            && state.preparation_phase == PreparationPhase.compensation_required
            && not (previous.disposition == RunDisposition.human_review)
            && state.disposition == RunDisposition.human_review)
          ⇒ restores_ticket)
        compensation_not_reconciled

  -- The start of a compensation.
  unfoldable pub validate_compensation : Result Rejection (Unit {0})
  unfolding has_reconciliation_appended
  validate_compensation =
      if moves PreparationPhase.in_progress_confirmed PreparationPhase.compensation_required
      then (do
        guard (not (is_some previous.pending_external_request)) compensation_with_pending
        guard (changes RunDisposition.active RunDisposition.active) compensation_not_active
        guard
            (has_reconciliation_appended previous state "create_ticket_branch"
              EffectOutcome.failure)
            no_branch_failure)
      else ok tt

  -- The reset of a compensated preparation.
  unfoldable pub validate_reset : List HumanAuthorization → Result Rejection (Unit {0})
  unfolding has_current_restore
  validate_reset appended = do
    guard
        ((previous.preparation_phase == PreparationPhase.compensation_required
            && changes RunDisposition.human_review RunDisposition.active)
          ⇒ (state.preparation_phase == PreparationPhase.selected))
        phase_not_reset
    (if moves PreparationPhase.compensation_required PreparationPhase.selected
        then (do
          guard
              (previous.compensated
                && state.compensated
                && changes RunDisposition.human_review RunDisposition.active
                && is_single HumanAuthorizationAction.resume appended)
              reset_not_authorized
          guard (not (is_some state.pending_external_request)) reset_with_pending
          guard (has_current_restore x load previous) no_restore)
        else ok tt)

  -- `_validate_preparation_transition`
  unfoldable pub validate_preparation_transition :
      List HumanAuthorization → Result Rejection (Unit {0})
  unfolding validate_phase validate_compensated validate_compensation validate_reset
      has_preparation_binding
  validate_preparation_transition appended =
      if has_preparation_binding previous
      then (do validate_phase; validate_compensated; validate_compensation; validate_reset appended)
      else ok tt
