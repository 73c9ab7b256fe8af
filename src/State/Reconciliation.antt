-- ===== src/State/Reconciliation.antt =====
-- src/auto_code/state.py: `_validate_pending_lifecycle` and the reconciliation of a pending request
-- by a signed receipt.
use auto_code.Common.{
  ℕ, ◌+◌, String, Bool, false, not, ◌&&◌, Option, none, some, List, [], ◌∷◌, num_eq, any, last,
  ◌==◌, text_Eq, num_Eq, option_Eq, is_some, Result, ok, err, guard, if◌then◌else◌,
}
use auto_code.Contracts.Enums.{EffectOutcome_Eq, RunDisposition_Eq}
use auto_code.Contracts.Equality.{EvidenceRef_Eq, PendingExternalRequest_Eq}
use auto_code.Contracts.Evidence.{EvidenceRef}
use auto_code.Contracts.Effects.{
  EffectEvent, EffectPayload, EffectIntention, EffectObservationPayload,
  EffectReconciliationPayload, invocation, observation, reconciliation, lookup,
  validate_effect_ledger,
}
use auto_code.Contracts.Receipts.{TrustedMcpReceipt}
use auto_code.Contracts.Requests.{PendingExternalRequest}
use auto_code.Contracts.RunState.{RunState}
use auto_code.State.Context.{
  Rejection, ReceiptAuthority, load_verified_receipt, content_hash_of, StoreContext, pending,
  pending_appends_own_event, pending_replaced, pending_not_authenticated,
}
use auto_code.State.Pending.{appended_since, PendingError, validate_new_pending}

-- The events of one reconciliation, with their payloads.
pub record Reconciled : Type 0 where
  pub invoked : EffectEvent
  pub observed : EffectEvent
  pub reconciled : EffectEvent
  pub observation : EffectObservationPayload
  pub reconciliation : EffectReconciliationPayload

-- Three events of the three kinds, in this order.
unfoldable pub reconciled_events : List EffectEvent → Option Reconciled
reconciled_events (i ∷ o ∷ r ∷ []) = of_payloads i.payload o.payload r.payload
  where
    of_payloads : EffectPayload → EffectPayload → EffectPayload → Option Reconciled
    of_payloads (invocation w) (observation p) (reconciliation q) =
        some (record {
          invoked = i;
          observed = o;
          reconciled = r;
          observation = p;
          reconciliation = q;
        })
    of_payloads _ _ _ = none
reconciled_events _ = none

unfoldable pub last_sequence : List EffectEvent → ℕ
last_sequence ledger = elim (last ledger) [ none ↦ 0 | some e ↦ e.sequence ]

-- The events are those of one effect, one after the other, and agree on the outcome and on one
-- piece of evidence.
unfoldable pub agrees : String → ℕ → Reconciled → Bool
agrees effect_id previous_sequence q =
    q.invoked.effect_id == effect_id
    && q.observed.effect_id == effect_id
    && q.reconciled.effect_id == effect_id
    && num_eq q.invoked.sequence (previous_sequence + 1)
    && num_eq q.observed.sequence (q.invoked.sequence + 1)
    && num_eq q.reconciled.sequence (q.observed.sequence + 1)
    && q.observation.outcome == q.reconciliation.outcome

-- The single piece of evidence, if the bridge created it and the reconciliation names its hash.
unfoldable pub bridge_evidence : Reconciled → Option EvidenceRef
bridge_evidence q = single q.observation.evidence_refs q.reconciliation.evidence_refs
  where
    single : List EvidenceRef → List EvidenceRef → Option EvidenceRef
    single (e ∷ []) (e' ∷ []) =
        if e == e'
          && e.creator == "trusted-mcp-bridge"
          && e.media_type == "application/json"
          && q.reconciliation.receipt_hash == some e.sha256
        then some e
        else none
    single _ _ = none

-- The receipt speaks of the three events.
unfoldable pub tells_events : Reconciled → TrustedMcpReceipt → Bool
tells_events q r =
    r.outcome == q.observation.outcome
    && num_eq q.invoked.timestamp r.observed_at
    && num_eq q.observed.timestamp r.observed_at
    && num_eq q.reconciled.timestamp r.observed_at
    && q.observation.external_revision == r.external_revision

-- The receipt is for the pending request.
unfoldable pub answers :
    (String → String) → String → PendingExternalRequest → TrustedMcpReceipt → Bool
answers lower run_id p r =
    r.run_id == run_id
    && r.request_id == p.request_id
    && r.effect_id == p.effect_id
    && lower r.request_hash == lower p.request_hash
    && some r.effect_hash == p.effect_hash
    && r.operation == p.operation
    && some r.expected_revision == p.expected_revision
    && some r.expected_state_hash == p.expected_state_hash
    && r.expected_external_revision == p.expected_external_revision
    && some r.payload_hash == p.payload_hash

-- The intention is for the pending request, and has the receipt's target.
unfoldable pub intended_by :
    (String → String) → PendingExternalRequest → TrustedMcpReceipt → Option EffectIntention → Bool
intended_by lower p r none = false
intended_by lower p r (some i) =
    i.payload.operation == p.operation
    && i.payload.target == r.target
    && lower i.payload.request_hash == lower p.request_hash

-- `intentions.get(effect_id)`; `none` also where the ledger does not validate.
unfoldable pub intention_of : RunState → String → Option EffectIntention
unfolding validate_effect_ledger lookup
intention_of s effect_id = elim (validate_effect_ledger s.effect_ledger) [
  | ok found ↦ lookup effect_id found.0
  | err _ ↦ none
]

module _ (x : StoreContext) (previous state : RunState) where
  -- What is asked of the receipt that the evidence names.
  unfoldable pub confirms :
      ReceiptAuthority
      → PendingExternalRequest
      → Reconciled
      → EvidenceRef
      → TrustedMcpReceipt
      → Bool
  unfolding intended_by answers tells_events intention_of
  confirms authority p q e r =
      intended_by x.lower p r (intention_of previous p.effect_id)
      && content_hash_of authority r == e.sha256
      && r.relative_path == e.relative_path
      && answers x.lower state.run_id p r
      && tells_events q r

  -- The receipt that was loaded, if it confirms the reconciliation.
  unfoldable pub confirmed :
      ReceiptAuthority
      → PendingExternalRequest
      → Reconciled
      → EvidenceRef
      → Option TrustedMcpReceipt
      → Option TrustedMcpReceipt
  unfolding confirms
  confirmed authority p q e none = none
  confirmed authority p q e (some r) = if confirms authority p q e r then some r else none

  unfoldable pub confirmed_by :
      ReceiptAuthority
      → PendingExternalRequest
      → Reconciled
      → Option EvidenceRef
      → Option TrustedMcpReceipt
  unfolding confirmed load_verified_receipt
  confirmed_by authority p q none = none
  confirmed_by authority p q (some e) =
      confirmed authority p q e (load_verified_receipt authority e)

  unfoldable pub reconciliation_by :
      ReceiptAuthority → PendingExternalRequest → Option Reconciled → Option TrustedMcpReceipt
  unfolding confirmed_by agrees bridge_evidence last_sequence
  reconciliation_by authority p none = none
  reconciliation_by authority p (some q) =
      if agrees p.effect_id (last_sequence previous.effect_ledger) q
      then confirmed_by authority p q (bridge_evidence q)
      else none

  -- The pending request of the previous state, none now, and the authority that a store may have.
  unfoldable pub authenticated_by :
      Option PendingExternalRequest
      → Option PendingExternalRequest
      → Option ReceiptAuthority
      → Option TrustedMcpReceipt
  unfolding reconciliation_by reconciled_events appended_since
  authenticated_by (some p) none (some authority) =
      reconciliation_by authority p
        (reconciled_events (appended_since previous.effect_ledger state.effect_ledger))
  authenticated_by _ _ _ = none

  -- `_require_authenticated_pending_reconciliation`; `none` where it raises.
  unfoldable pub authenticated_reconciliation : Option TrustedMcpReceipt
  unfolding authenticated_by
  authenticated_reconciliation =
      authenticated_by previous.pending_external_request state.pending_external_request
        x.receipt_authority

  -- The step of a pending request that the previous state has.
  unfoldable pub validate_kept_pending :
      PendingExternalRequest → Option PendingExternalRequest → Result Rejection (Unit {0})
  unfolding authenticated_reconciliation appended_since
  validate_kept_pending p none =
      guard (is_some authenticated_reconciliation) pending_not_authenticated
  validate_kept_pending p (some p') =
      if p' == p
      then guard
          (not (
            any (λ (e : EffectEvent). e.effect_id == p.effect_id)
              (appended_since previous.effect_ledger state.effect_ledger)))
          pending_appends_own_event
      else err pending_replaced

  abbrev as_pending : {A : Type 0} → Result PendingError A → Result Rejection A
  as_pending (ok a) = ok a
  as_pending (err e) = err (pending e)

  -- The branch on the pending request of the previous state.
  unfoldable pub lifecycle_of :
      Option PendingExternalRequest → ℕ → String → Result Rejection (Unit {0})
  unfolding validate_kept_pending validate_new_pending
  lifecycle_of none revision state_hash =
      as_pending (validate_new_pending x.lower revision state_hash previous state)
  lifecycle_of (some p) revision state_hash = validate_kept_pending p state.pending_external_request

  -- `_validate_pending_lifecycle`, with the revision and the hash of the previous generation.
  unfoldable pub validate_pending_lifecycle : ℕ → String → Result Rejection (Unit {0})
  unfolding lifecycle_of
  validate_pending_lifecycle = lifecycle_of previous.pending_external_request
