-- ===== src/State/Receipts.antt =====
-- src/auto_code/state.py: the checks of a preparation that read signed receipts.
use auto_code.Common.{
  ℕ, ◌+◌, String, Bool, false, ◌&&◌, Option, none, some, List, [], ◌∷◌, ◌++◌, num_eq, ltb, any,
  ◌==◌, text_Eq, option_Eq, if◌then◌else◌,
}
use auto_code.Contracts.Enums.{
  EffectOutcome, EffectOutcome_Eq, RunDisposition, RunDisposition_Eq, PreparationPhase,
  PreparationPhase_Eq,
}
use auto_code.Contracts.Equality.{RunnerIdentity_Eq}
use auto_code.Contracts.Evidence.{EvidenceRef}
use auto_code.Contracts.Effects.{
  EffectEvent, EffectPayload, EffectIntention, invocation, reconciliation,
}
use auto_code.Contracts.Receipts.{TrustedMcpReceipt}
use auto_code.Contracts.RunState.{RunState}
use auto_code.Contracts.RunState.Checks.{◌⇒◌}
use auto_code.State.Context.{ReceiptAuthority, load_verified_receipt, content_hash_of, StoreContext}
use auto_code.State.Pending.{appended_since}
use auto_code.State.Reconciliation.{
  Reconciled, reconciled_events, bridge_evidence, tells_events, intention_of,
  authenticated_reconciliation,
}

-- `_load_generation_locked`, of which the checks read the state; `none` where it raises.
abbrev pub GenerationLoader : Type 0
GenerationLoader = ℕ → String → Option RunState

-- `_restore_receipt_started_from_active_compensation`
unfoldable pub started_from_active_compensation : GenerationLoader → TrustedMcpReceipt → Bool
started_from_active_compensation load r = elim (load r.expected_revision r.expected_state_hash) [
  | none ↦ false
  | some source ↦
      source.preparation_phase == PreparationPhase.compensation_required
      && source.disposition == RunDisposition.active
]

-- What `_has_authenticated_receipt_reconciliation` asks of the receipt.
unfoldable pub is_wanted_receipt :
    GenerationLoader → RunState → String → EffectOutcome → TrustedMcpReceipt → Bool
unfolding started_from_active_compensation
is_wanted_receipt load state operation outcome r =
    r.operation == operation
    && r.outcome == outcome
    && r.target == state.ticket_id
    && ((operation == "restore_ticket_state" && outcome == EffectOutcome.success)
        ⇒ started_from_active_compensation load r)

unfoldable pub has_authenticated_reconciliation :
    StoreContext → GenerationLoader → RunState → RunState → String → EffectOutcome → Bool
unfolding is_wanted_receipt authenticated_reconciliation
has_authenticated_reconciliation x load previous state operation outcome =
    elim (authenticated_reconciliation x previous state) [
      | none ↦ false
      | some r ↦ is_wanted_receipt load state operation outcome r
    ]

-- `_has_reconciliation_appended`
unfoldable pub has_reconciliation_appended : RunState → RunState → String → EffectOutcome → Bool
unfolding appended_since intention_of
has_reconciliation_appended previous state operation outcome =
    any reconciles (appended_since previous.effect_ledger state.effect_ledger)
  where
    of_operation : Option EffectIntention → Bool
    of_operation none = false
    of_operation (some i) = i.payload.operation == operation

    reconciled_with : String → EffectPayload → Bool
    reconciled_with effect_id (reconciliation q) =
        q.outcome == outcome && of_operation (intention_of state effect_id)
    reconciled_with effect_id _ = false

    reconciles : EffectEvent → Bool
    reconciles e = reconciled_with e.effect_id e.payload

-- A reconciliation of the ledger with its receipt.
pub record ReceiptEvent : Type 0 where
  pub sequence : ℕ
  pub receipt : TrustedMcpReceipt

-- `EffectInvocationPayload()`, which has no wait
unfoldable pub is_unwaited : EffectPayload → Bool
is_unwaited (invocation w) = num_eq w 0
is_unwaited _ = false

-- What is asked of the intention and the three events, before the receipt is loaded.
unfoldable pub is_reconciliation_of : EffectIntention → Reconciled → Bool
unfolding is_unwaited
is_reconciliation_of i q =
    is_unwaited q.invoked.payload
    && q.invoked.effect_id == q.reconciled.effect_id
    && q.observed.effect_id == q.reconciled.effect_id
    && ltb i.sequence q.invoked.sequence
    && num_eq q.observed.sequence (q.invoked.sequence + 1)
    && num_eq q.reconciled.sequence (q.observed.sequence + 1)
    && q.observation.outcome == q.reconciliation.outcome

module _ (x : StoreContext) (authority : ReceiptAuthority) (state : RunState) where
  -- What is asked of the receipt.
  unfoldable pub is_receipt_for :
      EffectIntention → Reconciled → EvidenceRef → TrustedMcpReceipt → Bool
  unfolding tells_events
  is_receipt_for i q e r =
      content_hash_of authority r == e.sha256
      && r.relative_path == e.relative_path
      && r.run_id == state.run_id
      && r.effect_id == q.reconciled.effect_id
      && r.operation == i.payload.operation
      && r.target == i.payload.target
      && x.lower r.request_hash == x.lower i.payload.request_hash
      && tells_events q r

  unfoldable pub event_with :
      EffectIntention → Reconciled → EvidenceRef → Option TrustedMcpReceipt → List ReceiptEvent
  unfolding is_receipt_for
  event_with i q e none = []
  event_with i q e (some r) =
      if is_receipt_for i q e r
      then record { sequence = q.reconciled.sequence; receipt = r } ∷ []
      else []

  unfoldable pub event_by :
      Reconciled → Option EffectIntention → Option EvidenceRef → List ReceiptEvent
  unfolding event_with is_reconciliation_of load_verified_receipt
  event_by q (some i) (some e) =
      if is_reconciliation_of i q then event_with i q e (load_verified_receipt authority e) else []
  event_by q _ _ = []

  -- The body of the loop, on three events that follow one another.
  unfoldable pub event_of : Option Reconciled → List ReceiptEvent
  unfolding event_by intention_of bridge_evidence
  event_of none = []
  event_of (some q) = event_by q (intention_of state q.reconciled.effect_id) (bridge_evidence q)

  -- The three events from the first of a list on.
  unfoldable pub window : List EffectEvent → List ReceiptEvent
  unfolding event_of reconciled_events
  window (a ∷ b ∷ c ∷ rest) = event_of (reconciled_events (a ∷ b ∷ c ∷ []))
  window _ = []

  unfoldable pub receipt_events : List EffectEvent → List ReceiptEvent
  unfolding window
  receipt_events [] = []
  receipt_events (a ∷ rest) = window (a ∷ rest) ++ receipt_events rest

-- `_trusted_receipt_reconciliations`. No intention is found in a ledger that does not validate.
unfoldable pub trusted_reconciliations : StoreContext → RunState → List ReceiptEvent
unfolding receipt_events
trusted_reconciliations x state = elim x.receipt_authority [
  | none ↦ []
  | some authority ↦ receipt_events x authority state state.effect_ledger
]

-- A successful receipt of an operation on the run's ticket.
unfoldable pub is_success : RunState → String → ReceiptEvent → Bool
is_success state operation e =
    e.receipt.operation == operation
    && e.receipt.outcome == EffectOutcome.success
    && e.receipt.target == state.ticket_id

-- `latest_start`, of which the check reads the sequence number.
unfoldable pub latest_start : RunState → List ReceiptEvent → Option ℕ
unfolding is_success
latest_start state [] = none
latest_start state (e ∷ rest) = elim (latest_start state rest) [
  | none ↦ if is_success state "compare_and_start_ticket" e then some e.sequence else none
  | some later ↦
      if is_success state "compare_and_start_ticket" e && ltb later e.sequence
      then some e.sequence
      else some later
]

-- `_has_current_preparation_restore`
unfoldable pub has_current_restore : StoreContext → GenerationLoader → RunState → Bool
unfolding trusted_reconciliations latest_start is_success started_from_active_compensation
has_current_restore x load state = after (latest_start state (trusted_reconciliations x state))
  where
    after : Option ℕ → Bool
    after none = false
    after (some start) =
        any
          (λ (e : ReceiptEvent).
            ltb start e.sequence
            && is_success state "restore_ticket_state" e
            && started_from_active_compensation load e.receipt)
          (trusted_reconciliations x state)
