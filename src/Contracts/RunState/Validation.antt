-- ===== src/Contracts/RunState/Validation.antt =====
-- src/auto_code/contracts.py: `RunState.validate_state` as the chain of its checks, each over the
-- fields that it reads, with the error that it raises. The first four are the validators of nested
-- models, which pydantic runs before.
use auto_code.Common.{
  ℕ, ◌+◌, String, Bool, true, false, not, ◌&&◌, ◌||◌, Option, none, some, List, [], ◌∷◌, map, leb,
  ltb, num_eq, ◌==◌, text_Eq, num_Eq, option_Eq, is_some, all, distinct, Result, ok, err, ◌>>=◌,
  ◌>>◌, first_error, AllPass, >>=-eq-ok, first_error-AllPass, AllPass-first_error, ◌≡◌,
}
use auto_code.Contracts.Enums.{Stage_Eq, for_every_stage, PreparationPhase, PreparationPhase_Eq}
use auto_code.Contracts.Effects.{
  EffectEvent, Phase, reconciled, Intentions, Phases, lookup, validate_effect_ledger,
}
use auto_code.Contracts.Tasks.{is_task_definition_manifest, is_task_status_manifest}
use auto_code.Contracts.Authorizations.{HumanAuthorization, has_valid_budget, granted}
use auto_code.Contracts.Requests.{PendingExternalRequest, reconstruct_request}
use auto_code.Contracts.Externals.{Externals}
use auto_code.Contracts.RunState.{RunState}
use auto_code.Contracts.RunState.Checks.{
  StateError, ◌⇒◌, if_some, paired, output_of, key_matches, same_binding, is_signed, task_ids,
  status_ids, same_ids, on_status, stage_matches, same_presence, same_hash, output_stages,
  budget_not_positive, invalid_task_definition, invalid_task_status, invalid_authorization,
  binding_incomplete, binding_repository, binding_budget, binding_input_hash, binding_receipt_hash,
  phase_without_binding, repair_trust_incomplete, repair_key_hash, finalization_trust_incomplete,
  finalization_key_hash, finalization_key_shared, release_receipt_mismatch, release_incomplete,
  product_manifest_unbound, restart_receipt_unbound, count_exceeds_limit, open_not_counted,
  eligible_while_open, eligible_without_review, foreign_authorization, duplicate_authorization,
  status_without_definition, status_of_other_definition, status_not_covering,
  checkpoint_stage_mismatch, duplicate_output, outputs_not_matching, output_hash_mismatch,
  invalid_ledger, pending_unknown_effect, pending_reconciled, pending_other_intention,
  pending_not_reconstructible, pending_other_target,
}

unfoldable pub any_binding : RunState → Bool
any_binding s =
    is_some s.project_policy_hash
    || is_some s.preparation_input_ref
    || is_some s.preparation_input_hash
    || is_some s.ticket_snapshot_hash
    || is_some s.compatibility_receipt_hash
    || is_some s.compatibility_receipt_ref

unfoldable pub has_preparation_binding : RunState → Bool
has_preparation_binding s =
    is_some s.project_policy_hash
    && is_some s.preparation_input_ref
    && is_some s.preparation_input_hash
    && is_some s.ticket_snapshot_hash
    && is_some s.compatibility_receipt_hash
    && is_some s.compatibility_receipt_ref
    && is_some s.runner_identity

unfoldable pub authorized_iteration_limit : RunState → ℕ
authorized_iteration_limit s = s.max_crew_iterations + granted s.human_authorizations

-- The checks up to the effect ledger, in the source's order.
abbrev pub field_checks : Externals → RunState → List (Bool × StateError)
field_checks x s =
    (ltb 0 s.max_crew_iterations, budget_not_positive)
    ∷ (
      if_some s.task_definition_manifest (is_task_definition_manifest x.hasher),
      invalid_task_definition,
    )
    ∷ (if_some s.task_status_manifest is_task_status_manifest, invalid_task_status)
    ∷ (all has_valid_budget s.human_authorizations, invalid_authorization)
    ∷ (any_binding s ⇒ has_preparation_binding s, binding_incomplete)
    ∷ (
      any_binding s ⇒ if_some s.preparation_input_ref (λ r. r.repository_id == s.repository_id),
      binding_repository,
    )
    ∷ (
      any_binding s
          ⇒ if_some s.preparation_input_ref (λ r. r.max_crew_iterations == s.max_crew_iterations),
      binding_budget,
    )
    ∷ (
      any_binding s
          ⇒ if_some s.preparation_input_ref (λ r. s.preparation_input_hash == some r.input_hash),
      binding_input_hash,
    )
    ∷ (
      any_binding s
          ⇒ if_some s.compatibility_receipt_ref
              (λ r. s.compatibility_receipt_hash == some r.sha256),
      binding_receipt_hash,
    )
    ∷ (
      not (any_binding s) ⇒ s.preparation_phase == PreparationPhase.selected && not s.compensated,
      phase_without_binding,
    )
    ∷ (
      paired s.repair_activation_public_key s.repair_activation_public_key_hash,
      repair_trust_incomplete,
    )
    ∷ (
      key_matches x s.repair_activation_public_key s.repair_activation_public_key_hash,
      repair_key_hash,
    )
    ∷ (
      paired s.finalization_public_key s.finalization_public_key_hash,
      finalization_trust_incomplete,
    )
    ∷ (
      key_matches x s.finalization_public_key s.finalization_public_key_hash,
      finalization_key_hash,
    )
    ∷ (
      if_some s.finalization_public_key (λ k. not (s.repair_activation_public_key == some k)),
      finalization_key_shared,
    )
    ∷ (
      if_some s.finalization_index_release_receipt
          (same_binding s.finalization_index_release_binding),
      release_receipt_mismatch,
    )
    ∷ (
      s.finalization_index_released
          ⇒ is_some s.finalization_index_release_binding
            && is_some s.finalization_index_release_receipt
            && if_some s.finalization_index_release_receipt is_signed,
      release_incomplete,
    )
    ∷ (paired s.product_change_manifest s.product_change_manifest_hash, product_manifest_unbound)
    ∷ (paired s.restart_receipt_hash s.restart_receipt_request_hash, restart_receipt_unbound)
    ∷ (leb s.crew_iteration_count (authorized_iteration_limit s), count_exceeds_limit)
    ∷ (s.iteration_open ⇒ not (num_eq s.crew_iteration_count 0), open_not_counted)
    ∷ (s.finalization_eligible ⇒ not s.iteration_open, eligible_while_open)
    ∷ (
      s.finalization_eligible ⇒ is_some s.review_manifest && is_some s.review_result,
      eligible_without_review,
    )
    ∷ (
      all (λ (a : HumanAuthorization). a.run_id == s.run_id) s.human_authorizations,
      foreign_authorization,
    )
    ∷ (
      distinct (map (λ (a : HumanAuthorization). a.authorization_id) s.human_authorizations),
      duplicate_authorization,
    )
    ∷ (
      if_some s.task_status_manifest (λ _. is_some s.task_definition_manifest),
      status_without_definition,
    )
    ∷ (
      on_status s.task_status_manifest s.task_definition_manifest
          (λ m d. m.definition_hash == d.definition_hash),
      status_of_other_definition,
    )
    ∷ (
      on_status s.task_status_manifest s.task_definition_manifest
          (λ m d. same_ids (status_ids m) (task_ids d)),
      status_not_covering,
    )
    ∷ (
      for_every_stage (λ stage. stage_matches stage (s.checkpoints stage)),
      checkpoint_stage_mismatch,
    )
    ∷ (distinct (output_stages s.stage_outputs), duplicate_output)
    ∷ (
      for_every_stage
          (λ stage. same_presence (output_of s.stage_outputs stage) (s.checkpoints stage)),
      outputs_not_matching,
    )
    ∷ (
      for_every_stage (λ stage. same_hash (output_of s.stage_outputs stage) (s.checkpoints stage)),
      output_hash_mismatch,
    )
    ∷ []

abbrev pub is_reconciled : Option Phase → Bool
is_reconciled (some reconciled) = true
is_reconciled _ = false

-- The checks of the pending request against the intentions and phases of the ledger.
abbrev pub pending_checks :
    Externals → String → PendingExternalRequest → Intentions × Phases → List (Bool × StateError)
pending_checks x run_id p (intentions, phases) =
    (is_some (lookup p.effect_id intentions), pending_unknown_effect)
    ∷ (not (is_reconciled (lookup p.effect_id phases)), pending_reconciled)
    ∷ (
      if_some (lookup p.effect_id intentions)
          (λ i. i.payload.request_hash == p.request_hash && i.payload.operation == p.operation),
      pending_other_intention,
    )
    ∷ (
      is_some p.entity || is_some p.target || is_some p.arguments
          ⇒ is_some (reconstruct_request x.hasher x.request_fields p run_id),
      pending_not_reconstructible,
    )
    ∷ (
      is_some p.entity || is_some p.target || is_some p.arguments
          ⇒ if_some (lookup p.effect_id intentions) (λ i.
            if_some (reconstruct_request x.hasher x.request_fields p run_id)
              (λ r. i.payload.target == r.target)),
      pending_other_target,
    )
    ∷ []

unfoldable pub validate_pending :
    Externals
    → String
    → Option PendingExternalRequest
    → Intentions × Phases
    → Result StateError (Unit {0})
unfolding first_error
validate_pending x run_id none ledger = ok tt
validate_pending x run_id (some p) ledger = first_error (pending_checks x run_id p ledger)

abbrev in_state : {E A : Type 0} → Result E A → Result StateError A
in_state (ok a) = ok a
in_state (err _) = err invalid_ledger

-- The end of the validator: the ledger, then the pending request.
unfoldable pub validate_effects :
    Externals
    → String
    → List EffectEvent
    → Option PendingExternalRequest
    → Result StateError (Unit {0})
unfolding validate_effect_ledger validate_pending
validate_effects x run_id ledger pending = do
  found ← in_state (validate_effect_ledger ledger)
  validate_pending x run_id pending found

unfoldable pub validate_state : Externals → RunState → Result StateError RunState
unfolding first_error validate_effects
validate_state x s = do
  first_error (field_checks x s)
  validate_effects x s.run_id s.effect_ledger s.pending_external_request
  ok s

-- What a state that validates satisfies.
pub record IsValid (x : Externals) (s : RunState) : Type 0 where
  pub fields : AllPass (field_checks x s)
  pub effects : validate_effects x s.run_id s.effect_ledger s.pending_external_request ≡ ok tt

-- `ContractModel.model_copy`: the update is applied and the whole state validated anew.
unfoldable pub model_copy :
    Externals → RunState → (RunState → RunState) → Result StateError RunState
unfolding validate_state
model_copy x s update = validate_state x (update s)

pub validate_state-IsValid :
    (x : Externals) (s : RunState) {t : RunState}
    → validate_state x s ≡ ok t
    → IsValid x s × (t ≡ s)
unfolding validate_state
validate_state-IsValid x s h =
    let (_, fields, more) = >>=-eq-ok (first_error (field_checks x s)) _ h in
    let (_, effects, done) =
      >>=-eq-ok (validate_effects x s.run_id s.effect_ledger s.pending_external_request) _ more in
    (record { fields = first_error-AllPass (field_checks x s) fields; effects = effects }, cc)

pub IsValid-validate_state :
    (x : Externals) (s : RunState) → IsValid x s → validate_state x s ≡ ok s
unfolding validate_state
IsValid-validate_state x s v = rw (AllPass-first_error (field_checks x s) v.fields) (rw v.effects)
