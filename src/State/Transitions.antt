-- ===== src/State/Transitions.antt =====
-- src/auto_code/state.py: the checks of `_validate_transition` on iterations, tasks, authorizations
-- and dispositions.
pub mod Routes
pub mod Grants
pub mod Accepts
use auto_code.Common.{
  is_nonempty, ℕ, ◌+◌, String, Bool, true, false, not, ◌&&◌, ◌||◌, Option, none, some, List, [],
  ◌∷◌, ltb, num_eq, any, all, ◌==◌, option_Eq, text_Eq, is_some, Result, ok, err, ◌>>=◌, ◌>>◌,
  guard, if◌then◌else◌, of_discrete, Eq,
}
use auto_code.Contracts.Enums.{
  every_stage, Stage, Stage_Eq, RunDisposition, RunDisposition_Eq, UnitStatus, UnitStatus_Eq,
  HumanAuthorizationAction, HumanAuthorizationAction_Eq, RunDisposition-discrete,
}
use auto_code.Contracts.Evidence.{StageOutput}
use auto_code.Contracts.Effects.{lookup, Phase, validate_effect_ledger}
use auto_code.Contracts.Tasks.{
  TaskDefinitionManifest-discrete, TaskDefinition, TaskDefinitionManifest,
  TaskDefinitionManifest_Eq, TaskStatus, TaskStatusManifest,
}
use auto_code.Contracts.Authorizations.{HumanAuthorization, is_consumed_in_time}
use auto_code.Contracts.Requests.{PendingExternalRequest}
use auto_code.Contracts.Bindings.{FinalizationEvidence, IndexReleaseBinding, RunnerIdentity}
use auto_code.Contracts.RunState.{RunState}
use auto_code.Contracts.RunState.Checks.{◌⇒◌, if_some}
use auto_code.Contracts.RunState.Validation.{authorized_iteration_limit, is_reconciled}
use auto_code.Contracts.RunState.Iterations.{can_start_iteration}

pub data TransitionError : Type 0 where
  count_decreases illegitimate_opening opening_not_counted : TransitionError
  status_initialised_checked status_cleared status_unchecked : TransitionError
  definition_keeps_status definition_keeps_dependents definition_keeps_stages : TransitionError
  authorization_not_for_transition authorization_not_trusted : TransitionError
  disposition_not_allowed authorization_without_transition : TransitionError
  abandon_unauthorized resume_unauthorized repair_restart_unbound pending_not_reconciled :
      TransitionError
  done_not_closed done_evidence_mismatch done_without_release_binding : TransitionError

-- `_validate_iteration_transition`
unfoldable pub validate_iteration_transition :
    RunState → RunState → Result TransitionError (Unit {0})
unfolding can_start_iteration
validate_iteration_transition previous state =
    if ltb state.crew_iteration_count previous.crew_iteration_count
    then err count_decreases
    else if ltb previous.crew_iteration_count state.crew_iteration_count
    then guard
        (num_eq state.crew_iteration_count (previous.crew_iteration_count + 1)
          && can_start_iteration previous
          && state.iteration_open)
        illegitimate_opening
    else guard (not (not previous.iteration_open && state.iteration_open)) opening_not_counted

abbrev pub is_checked : UnitStatus → Bool
is_checked UnitStatus.checked = true
is_checked UnitStatus.unchecked = false

-- `{status.task_id: status.status for ...}.get(task_id)`: a later entry wins.
unfoldable pub status_of : List TaskStatus → String → Option UnitStatus
status_of [] id = none
status_of (t ∷ rest) id = elim (status_of rest id) [
  | some later ↦ some later
  | none ↦ if t.task_id == id then some t.status else none
]

-- `new[task_id] is UnitStatus.CHECKED`. Both manifests cover the same tasks, so no key is missing.
abbrev pub is_done : Option UnitStatus → Bool
is_done none = false
is_done (some u) = is_checked u

-- No task that was checked is unchecked now.
unfoldable pub keeps_checked : List TaskStatus → List TaskStatus → Bool
unfolding status_of
keeps_checked old new =
    all (λ (t : TaskStatus). is_done (status_of old t.task_id) ⇒ is_done (status_of new t.task_id))
      old

-- The branch for unchanged definitions.
unfoldable pub validate_statuses :
    Option TaskStatusManifest → Option TaskStatusManifest → Result TransitionError (Unit {0})
unfolding keeps_checked
validate_statuses none none = ok tt
validate_statuses none (some m) =
    guard (not (any (λ (t : TaskStatus). is_checked t.status) m.statuses))
      status_initialised_checked
validate_statuses (some old) none = err status_cleared
validate_statuses (some old) (some new) =
    guard (keeps_checked old.statuses new.statuses) status_unchecked

-- `any(getattr(state, field) is not None for field in dependent_fields) or finalization_eligible`
unfoldable pub has_dependents : RunState → Bool
has_dependents s =
    is_some s.product_change_manifest
    || is_some s.product_change_manifest_hash
    || is_some s.build_identity
    || is_some s.verification_result
    || is_some s.browser_result
    || is_some s.review_manifest
    || is_some s.review_result
    || is_some s.prefinalization_ticket_projection
    || is_some s.commit_sha
    || is_some s.pushed_sha
    || is_some s.linear_done_receipt
    || is_some s.finalization
    || is_some s.finalization_evidence
    || s.finalization_eligible

-- `invalidated_stages`
unfoldable pub depends_on_tasks : Bool → Stage → Bool
depends_on_tasks had_definition Stage.programmer = true
depends_on_tasks had_definition Stage.verification = true
depends_on_tasks had_definition Stage.tester = true
depends_on_tasks had_definition Stage.reviewer = true
depends_on_tasks had_definition Stage.architect_tasks = had_definition
depends_on_tasks had_definition _ = false

-- `invalidated_stages.intersection(state.checkpoints) or any(...)`
unfoldable pub keeps_stages : Bool → RunState → Bool
unfolding depends_on_tasks
keeps_stages had_definition s =
    any (λ stage. depends_on_tasks had_definition stage && is_some (s.checkpoints stage))
      every_stage
    || any (λ (o : StageOutput). depends_on_tasks had_definition o.stage) s.stage_outputs

-- `_validate_task_transition`
unfoldable pub validate_task_transition : RunState → RunState → Result TransitionError (Unit {0})
validate_task_transition previous state =
    if previous.task_definition_manifest == state.task_definition_manifest
    then validate_statuses previous.task_status_manifest state.task_status_manifest
    else (do
      guard (not (is_some state.task_status_manifest)) definition_keeps_status
      guard (not (has_dependents state)) definition_keeps_dependents
      guard (not (keeps_stages (is_some previous.task_definition_manifest) state))
          definition_keeps_stages)

-- `AuthorizationVerifier.verify`, with an exception as a refusal; the store may have none.
abbrev pub Verifier : Type 0
Verifier = Option (HumanAuthorization → HumanAuthorizationAction → Bool)

-- `_is_trusted_authorization`
unfoldable pub is_trusted_authorization :
    Verifier → HumanAuthorization → HumanAuthorizationAction → Bool
unfolding is_consumed_in_time
is_trusted_authorization none a action = false
is_trusted_authorization (some verify) a action =
    a.action == action && is_consumed_in_time a && verify a action

-- The action that the change of disposition asks for.
unfoldable pub required_action : RunDisposition → RunDisposition → Option HumanAuthorizationAction
required_action RunDisposition.human_review RunDisposition.active =
    some HumanAuthorizationAction.resume
required_action RunDisposition.human_review RunDisposition.abandoned =
    some HumanAuthorizationAction.abandon
required_action _ _ = none

-- `_validate_appended_authorizations`, over the authorizations appended.
unfoldable pub validate_appended_authorizations :
    Verifier
    → RunDisposition
    → RunDisposition
    → List HumanAuthorization
    → Result TransitionError (Unit {0})
unfolding required_action is_trusted_authorization
validate_appended_authorizations verifier before after [] = ok tt
validate_appended_authorizations verifier before after (a ∷ more) =
    check (required_action before after) more
  where
    check :
        Option HumanAuthorizationAction
        → List HumanAuthorization
        → Result TransitionError (Unit {0})
    check (some action) [] =
        if a.action == action
        then guard (is_trusted_authorization verifier a action) authorization_not_trusted
        else err authorization_not_for_transition
    check _ _ = err authorization_not_for_transition

-- `allowed` of `_validate_disposition_transition`. A state that is done or abandoned is not asked.
unfoldable pub is_allowed : RunDisposition → RunDisposition → Bool
is_allowed RunDisposition.active RunDisposition.abandoned = false
is_allowed RunDisposition.active _ = true
is_allowed RunDisposition.waiting_mcp RunDisposition.done = false
is_allowed RunDisposition.waiting_mcp RunDisposition.abandoned = false
is_allowed RunDisposition.waiting_mcp _ = true
is_allowed RunDisposition.repair_required RunDisposition.repair_required = true
is_allowed RunDisposition.repair_required RunDisposition.active = true
is_allowed RunDisposition.repair_required RunDisposition.human_review = true
is_allowed RunDisposition.human_review RunDisposition.human_review = true
is_allowed RunDisposition.human_review RunDisposition.active = true
is_allowed RunDisposition.human_review RunDisposition.abandoned = true
is_allowed _ _ = false

-- The evidence binds the completed state.
unfoldable pub binds_evidence : RunState → FinalizationEvidence → Bool
binds_evidence s e =
    s.prefinalization_ticket_projection == some e.prefinalization_ticket_projection
    && s.commit_sha == some e.commit_sha
    && s.pushed_sha == some e.pushed_sha
    && s.linear_done_receipt == some e.linear_done_receipt

unfoldable pub is_closed_and_approved : RunState → RunState → List HumanAuthorization → Bool
unfolding RunDisposition-discrete
is_closed_and_approved previous state appended =
    previous.disposition == RunDisposition.active
    && not previous.iteration_open
    && not state.iteration_open
    && previous.finalization_eligible
    && state.finalization_eligible
    && is_some previous.review_manifest
    && is_some previous.review_result
    && not (is_some previous.pending_external_request)
    && is_some state.finalization_evidence
    && not (is_nonempty appended)

-- `_validate_done_transition`
unfoldable pub validate_done_transition :
    RunState → RunState → List HumanAuthorization → Result TransitionError (Unit {0})
unfolding is_closed_and_approved binds_evidence
validate_done_transition previous state appended = do
  guard (is_closed_and_approved previous state appended) done_not_closed
  guard (if_some state.finalization_evidence (binds_evidence state)) done_evidence_mismatch
  guard
      (is_some state.finalization_index_release_binding
        && not (is_some state.finalization_index_release_receipt)
        && not state.finalization_index_released
        && if_some state.finalization_index_release_binding
            (λ b. b.repository_id == state.repository_id && b.run_id == state.run_id))
      done_without_release_binding

-- `len(appended) == 1 and appended[0].action is action`
abbrev pub is_single : HumanAuthorizationAction → List HumanAuthorization → Bool
is_single action (a ∷ []) = a.action == action
is_single action _ = false

abbrev pub changed_runner : Option RunnerIdentity → Option RunnerIdentity → Bool
changed_runner (some old) (some new) = not (old.content_hash == new.content_hash)
changed_runner _ _ = false

-- `phases.get(effect_id) == "reconciled"`, in a ledger that validates
unfoldable pub is_reconciled_in : RunState → String → Bool
unfolding validate_effect_ledger lookup
is_reconciled_in s effect_id = elim (validate_effect_ledger s.effect_ledger) [
  | ok found ↦ is_reconciled (lookup effect_id found.1)
  | err _ ↦ false
]

abbrev pub pending_reconciled_in : Option PendingExternalRequest → RunState → Bool
pending_reconciled_in none s = false
pending_reconciled_in (some p) s = is_reconciled_in s p.effect_id

-- The branches on a disposition that changes, in the order of the chain.
unfoldable pub validate_change :
    RunState → RunState → List HumanAuthorization → Result TransitionError (Unit {0})
unfolding validate_done_transition is_reconciled_in RunDisposition-discrete
validate_change previous state appended =
    if state.disposition == RunDisposition.done
    then validate_done_transition previous state appended
    else if state.disposition == RunDisposition.abandoned
    then guard
        (previous.disposition == RunDisposition.human_review
          && is_single HumanAuthorizationAction.abandon appended)
        abandon_unauthorized
    else if previous.disposition == RunDisposition.human_review
        && state.disposition == RunDisposition.active
    then guard (is_single HumanAuthorizationAction.resume appended) resume_unauthorized
    else if previous.disposition == RunDisposition.repair_required
        && state.disposition == RunDisposition.active
    then guard
        (not (is_nonempty appended)
          && num_eq (authorized_iteration_limit state) (authorized_iteration_limit previous)
          && changed_runner previous.runner_identity state.runner_identity
          && is_some state.restart_receipt_hash
          && not (state.restart_receipt_hash == previous.restart_receipt_hash))
        repair_restart_unbound
    else if previous.disposition == RunDisposition.waiting_mcp
        && state.disposition == RunDisposition.active
    then guard
        (not (is_nonempty appended)
          && num_eq (authorized_iteration_limit state) (authorized_iteration_limit previous)
          && not (is_some state.pending_external_request)
          && pending_reconciled_in previous.pending_external_request state)
        pending_not_reconciled
    else guard (not (is_nonempty appended)) authorization_not_for_transition

-- `_validate_disposition_transition`
unfoldable pub validate_disposition_transition :
    RunState → RunState → List HumanAuthorization → Result TransitionError (Unit {0})
unfolding validate_change is_allowed RunDisposition-discrete
validate_disposition_transition previous state appended = do
  guard (is_allowed previous.disposition state.disposition) disposition_not_allowed
  if previous.disposition == state.disposition
      then guard (not (is_nonempty appended)) authorization_without_transition
      else validate_change previous state appended
