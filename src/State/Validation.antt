-- ===== src/State/Validation.antt =====
-- src/auto_code/state.py: the fields that a transition keeps, the initial state, and the marker of a
-- released index.
use auto_code.Common.{
  String, Bool, true, false, ◌&&◌, Option, none, some, List, [], ◌∷◌, num_eq, Eq, ◌==◌, text_Eq,
  num_Eq, option_Eq, is_some, Result, ok, err, ◌>>=◌, ◌>>◌, guard, if◌then◌else◌,
}
use auto_code.Contracts.Enums.{
  RunDisposition, RunDisposition_Eq, PreparationPhase, PreparationPhase_Eq,
}
use auto_code.Contracts.Equality.{
  EvidenceRef_Eq, EffectEvent_Eq, FailureRecord_Eq, HumanAuthorization_Eq,
  TrustedPreparationInputRef_Eq, PersistedBranchBinding_Eq, RunState_Eq,
}
use auto_code.Contracts.Bindings.{IndexReleaseBinding, IndexReleaseReceipt}
use auto_code.Contracts.Receipts.{receipt_for, matches_release, has_release_signature}
use auto_code.Contracts.RunState.{RunState, new_run_state}
use auto_code.Contracts.RunState.Checks.{StateError, ◌⇒◌}
use auto_code.Contracts.RunState.Validation.{has_preparation_binding, validate_state, model_copy}
use auto_code.State.Context.{
  Rejection, StoreError, StoreContext, rejected, transition, contract_violated, not_initial,
  immutable_field, preparation_binding, immutable_binding, branch_changed, manifest_substituted,
  prefix_lost,
}
use auto_code.State.Transitions.{TransitionError}

-- `tuple(new[:len(old)]) == tuple(old)`
unfoldable pub is_prefix {ℓ} : {A : Type ℓ} ⦃e : Eq A⦄ → List A → List A → Bool
is_prefix [] new = true
is_prefix (a ∷ old) [] = false
is_prefix (a ∷ old) (b ∷ new) = b == a && is_prefix old new

-- The fields that never change.
unfoldable pub keeps_identity : RunState → RunState → Bool
keeps_identity previous state =
    previous.run_id == state.run_id
    && previous.ticket_id == state.ticket_id
    && previous.repository_id == state.repository_id
    && num_eq previous.max_crew_iterations state.max_crew_iterations
    && previous.repair_activation_public_key == state.repair_activation_public_key
    && previous.repair_activation_public_key_hash == state.repair_activation_public_key_hash
    && previous.finalization_public_key == state.finalization_public_key
    && previous.finalization_public_key_hash == state.finalization_public_key_hash

unfoldable pub keeps_preparation_binding : RunState → RunState → Bool
keeps_preparation_binding previous state =
    previous.project_policy_hash == state.project_policy_hash
    && previous.preparation_input_ref == state.preparation_input_ref
    && previous.preparation_input_hash == state.preparation_input_hash
    && previous.ticket_snapshot_hash == state.ticket_snapshot_hash
    && previous.compatibility_receipt_hash == state.compatibility_receipt_hash
    && previous.compatibility_receipt_ref == state.compatibility_receipt_ref

unfoldable pub keeps_branch : RunState → RunState → Bool
keeps_branch previous state =
    (is_some previous.branch ⇒ (state.branch == previous.branch))
    && (is_some previous.branch_binding ⇒ (state.branch_binding == previous.branch_binding))

unfoldable pub keeps_manifest : RunState → RunState → Bool
keeps_manifest previous state =
    (is_some previous.product_change_manifest && is_some state.product_change_manifest)
    ⇒ (previous.product_change_manifest == state.product_change_manifest
        && previous.product_change_manifest_hash == state.product_change_manifest_hash)

unfoldable pub keeps_histories : RunState → RunState → Bool
unfolding is_prefix
keeps_histories previous state =
    is_prefix previous.effect_ledger state.effect_ledger
    && is_prefix previous.failure_history state.failure_history
    && is_prefix previous.human_authorizations state.human_authorizations

-- The checks on fields that stay, in their order.
unfoldable pub validate_kept_fields : RunState → RunState → Result Rejection (Unit {0})
unfolding keeps_identity keeps_preparation_binding keeps_branch keeps_manifest keeps_histories
    has_preparation_binding
validate_kept_fields previous state = do
  guard (keeps_identity previous state) immutable_field
  guard
      ((has_preparation_binding previous ⇒ has_preparation_binding state)
        && (has_preparation_binding state ⇒ has_preparation_binding previous))
      preparation_binding
  guard (has_preparation_binding previous ⇒ keeps_preparation_binding previous state)
      immutable_binding
  guard (keeps_branch previous state) branch_changed
  guard (keeps_manifest previous state) manifest_substituted
  guard (keeps_histories previous state) prefix_lost

-- A value that is kept only under a condition.
abbrev pub kept_if {ℓ} : {A : Type ℓ} → Bool → Option A → Option A
kept_if b o = if b then o else none

-- `RunState(**values)` of `_validate_initial_state`
unfoldable pub initial_of : RunState → RunState
unfolding has_preparation_binding
initial_of s =
    let bound = has_preparation_binding s in
    let repair_key = is_some s.repair_activation_public_key in
    let final_key = is_some s.finalization_public_key in
    record (new_run_state s.run_id s.ticket_id s.repository_id s.max_crew_iterations) {
      project_policy_hash = kept_if bound s.project_policy_hash;
      preparation_input_ref = kept_if bound s.preparation_input_ref;
      preparation_input_hash = kept_if bound s.preparation_input_hash;
      ticket_snapshot_hash = kept_if bound s.ticket_snapshot_hash;
      compatibility_receipt_hash = kept_if bound s.compatibility_receipt_hash;
      compatibility_receipt_ref = kept_if bound s.compatibility_receipt_ref;
      runner_identity = kept_if bound s.runner_identity;
      repair_activation_public_key = kept_if repair_key s.repair_activation_public_key;
      repair_activation_public_key_hash = kept_if repair_key s.repair_activation_public_key_hash;
      finalization_public_key = kept_if final_key s.finalization_public_key;
      finalization_public_key_hash = kept_if final_key s.finalization_public_key_hash;
      disposition =
          if s.preparation_phase == PreparationPhase.selected
            && s.disposition == RunDisposition.human_review
          then RunDisposition.human_review
          else RunDisposition.active;
    }

abbrev pub as_rejected : {A : Type 0} → Result Rejection A → Result StoreError A
as_rejected (ok a) = ok a
as_rejected (err e) = err (rejected e)

abbrev pub as_transition : {A : Type 0} → Result TransitionError A → Result StoreError A
as_transition (ok a) = ok a
as_transition (err e) = err (rejected (transition e))

abbrev pub as_contract : {A : Type 0} → Result StateError A → Result StoreError A
as_contract (ok a) = ok a
as_contract (err e) = err (rejected contract_violated)

module _ (x : StoreContext) where
  -- `_validate_initial_state`
  unfoldable pub validate_initial_state : RunState → Result StoreError (Unit {0})
  unfolding initial_of validate_state
  validate_initial_state s = do
    initial ← as_contract (validate_state x.externals (initial_of s))
    as_rejected (guard (s == initial) not_initial)

  -- `marker` of `_is_exact_release_marker`
  abbrev pub released : IndexReleaseReceipt → RunState → RunState
  released receipt s = record s {
    finalization_index_released = true;
    finalization_index_release_receipt = some receipt;
  }

  -- The end of `_is_exact_release_marker`, with nothing missing.
  unfoldable pub is_marker_of :
      RunState
      → String
      → RunState
      → IndexReleaseBinding
      → IndexReleaseReceipt
      → String
      → String
      → Result StoreError Bool
  unfolding model_copy has_release_signature matches_release receipt_for
  is_marker_of previous state_hash state b receipt key key_hash = do
    marker ← as_contract (model_copy x.externals previous (released receipt))
    ok (
        has_release_signature x.externals.hasher x.externals.public_key_digest x.verify_ed25519
          receipt key key_hash
        && state == marker
        && matches_release receipt (receipt_for x.externals.hasher b state_hash))

  unfoldable pub is_marker_with :
      RunState
      → String
      → RunState
      → Option IndexReleaseBinding
      → Option IndexReleaseReceipt
      → Option String
      → Option String
      → Result StoreError Bool
  unfolding is_marker_of
  is_marker_with previous state_hash state (some b) (some receipt) (some key) (some key_hash) =
      is_marker_of previous state_hash state b receipt key key_hash
  is_marker_with previous state_hash state _ _ _ _ = ok false

  -- `_is_exact_release_marker`
  unfoldable pub is_release_marker : RunState → String → RunState → Result StoreError Bool
  unfolding is_marker_with
  is_release_marker previous state_hash state =
      is_marker_with previous state_hash state previous.finalization_index_release_binding
        state.finalization_index_release_receipt previous.finalization_public_key
        previous.finalization_public_key_hash
