-- ===== src/State/Acceptance.antt =====
-- src/auto_code/state.py: `_validate_transition` as a whole, with the terminal states.
pub mod Inversion
pub mod Extends
pub mod Terminal
pub mod History
pub mod Clearing
use auto_code.Common.{
  ℕ, ◌+◌, String, Bool, true, false, not, ◌&&◌, ◌||◌, Option, none, some, List, [], ◌∷◌, length,
  num_eq, ◌==◌, text_Eq, option_Eq, Result, ok, err, ◌>>=◌, ◌>>◌, guard, if◌then◌else◌,
}
use auto_code.Contracts.Enums.{RunDisposition, RunDisposition_Eq, RunDisposition-discrete}
use auto_code.Contracts.Equality.{RunState_Eq, RunState-discrete}
use auto_code.Contracts.RunState.{RunState}
use auto_code.Contracts.RunState.Validation.{validate_state, model_copy}
use auto_code.State.Context.{
  StateGeneration, Rejection, StoreError, StoreContext, rejected, unsafe_value, unsafe_identifier,
  other_run, other_repository, terminal_immutable, repair_not_verified,
}
use auto_code.State.Identifiers.{is_identifier}
use auto_code.State.Pending.{appended_since}
use auto_code.State.Preparation.{validate_preparation_transition}
use auto_code.State.Receipts.{GenerationLoader}
use auto_code.State.Reconciliation.{validate_pending_lifecycle}
use auto_code.State.Repair.{is_verified_repair}
use auto_code.State.Transitions.{
  validate_iteration_transition, validate_task_transition, validate_appended_authorizations,
  validate_disposition_transition,
}
use auto_code.State.Validation.{
  validate_kept_fields, validate_initial_state, is_release_marker, as_rejected, as_transition,
  as_contract,
}

-- `_validate_identifiers` raises nothing.
unfoldable pub has_identifiers : RunState → Bool
unfolding is_identifier
has_identifiers s =
    is_identifier s.run_id && is_identifier s.ticket_id && is_identifier s.repository_id

-- `binding is not None and binding != state.repository_id`
unfoldable pub is_bound_to : Option String → String → Bool
is_bound_to none repository_id = true
is_bound_to (some b) repository_id = b == repository_id

module _ (x : StoreContext) (load : GenerationLoader) where
  -- The update of `escalated`.
  abbrev pub escalated : RunState → RunState → RunState
  escalated state s = record s {
    disposition = RunDisposition.human_review;
    failure_history = state.failure_history;
  }

  -- `state == escalated and len(...) == len(...) + 1`, unless the index is released
  abbrev pub is_escalation : RunState → RunState → Bool
  is_escalation previous state =
      not previous.finalization_index_released
      && state == escalated state previous
      && num_eq (length state.failure_history) (length previous.failure_history + 1)

  unfoldable pub unchanged : RunState → RunState → Result StoreError (Unit {0})
  unchanged previous state = as_rejected (guard (state == previous) terminal_immutable)

  -- The release marker is looked for while the index is not released.
  unfoldable pub is_marker : StateGeneration → RunState → Result StoreError Bool
  unfolding is_release_marker
  is_marker g state =
      if g.state.finalization_index_released
      then ok false
      else is_release_marker x g.state g.state_hash state

  -- No release marker: an escalation to human review, or no change.
  unfoldable pub validate_unmarked :
      StateGeneration → RunState → Bool → Result StoreError (Unit {0})
  unfolding unchanged model_copy
  validate_unmarked g state true = ok tt
  validate_unmarked g state false = do
    _ ← as_contract (model_copy x.externals g.state (escalated state))
    (if is_escalation g.state state then ok tt else unchanged g.state state)

  -- A state that is done: a release marker, an escalation to human review, or no change.
  unfoldable pub validate_done : StateGeneration → RunState → Result StoreError (Unit {0})
  unfolding is_marker validate_unmarked
  validate_done g state = is_marker g state >>= validate_unmarked g state

  -- A repair that was required is activated only when it is verified.
  unfoldable pub validate_repair : StateGeneration → RunState → Result Rejection (Unit {0})
  unfolding is_verified_repair RunDisposition-discrete
  validate_repair g state =
      if g.state.disposition == RunDisposition.repair_required
        && state.disposition == RunDisposition.active
      then guard (is_verified_repair x g.revision g.state_hash g.state state) repair_not_verified
      else ok tt

  -- The checks on a state whose predecessor is not terminal.
  unfoldable pub validate_running : StateGeneration → RunState → Result StoreError (Unit {0})
  unfolding validate_appended_authorizations validate_repair validate_iteration_transition
      validate_task_transition validate_disposition_transition validate_preparation_transition
      appended_since
  validate_running g state =
      let appended = appended_since g.state.human_authorizations state.human_authorizations in
      as_transition
        (validate_appended_authorizations x.verifier g.state.disposition state.disposition appended)
      >> (as_rejected (validate_repair g state)
          >> (as_transition (validate_iteration_transition g.state state)
              >> (as_transition (validate_task_transition g.state state)
                  >> (as_transition (validate_disposition_transition g.state state appended)
                      >> as_rejected
                          (validate_preparation_transition x load g.state state appended)))))

  -- The branch on the disposition of the predecessor.
  unfoldable pub validate_from :
      RunDisposition → StateGeneration → RunState → Result StoreError (Unit {0})
  unfolding validate_done validate_running unchanged
  validate_from RunDisposition.done g state = validate_done g state
  validate_from RunDisposition.abandoned g state = unchanged g.state state
  validate_from _ g state = validate_running g state

  unfoldable pub validate_successor : StateGeneration → RunState → Result StoreError (Unit {0})
  unfolding validate_pending_lifecycle validate_kept_fields validate_from
  validate_successor g state =
      as_rejected (validate_pending_lifecycle x g.state state g.revision g.state_hash)
      >> (as_rejected (validate_kept_fields g.state state)
          >> validate_from g.state.disposition g state)

  -- The branch on the predecessor.
  unfoldable pub validate_after : Option StateGeneration → RunState → Result StoreError (Unit {0})
  unfolding validate_initial_state validate_successor
  validate_after none state = validate_initial_state x state
  validate_after (some g) state = validate_successor g state

  -- The checks on a state, after its own validation.
  unfoldable pub validate_validated :
      Option StateGeneration → RunState → Result StoreError (Unit {0})
  unfolding validate_after has_identifiers is_bound_to
  validate_validated previous state =
      as_rejected (guard (has_identifiers state) unsafe_identifier)
      >> (as_rejected (guard (state.run_id == x.run_id) other_run)
          >> (x.bound_repository >>= λ b.
              as_rejected (guard (is_bound_to b state.repository_id) other_repository)
              >> validate_after previous state))

  -- `_validate_transition`
  unfoldable pub validate_transition :
      Option StateGeneration → RunState → Result StoreError RunState
  unfolding validate_validated validate_state
  validate_transition previous s =
      as_rejected (guard (x.is_persistable (x.dump_state s)) unsafe_value)
      >> (as_contract (validate_state x.externals s) >>= λ state.
          validate_validated previous state >> ok state)
