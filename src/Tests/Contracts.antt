-- ===== src/Tests/Contracts.antt =====
-- Instances for the effect ledger and the iterations.
use auto_code.Contracts.Json.{field, no_more, str}
use auto_code.Contracts.Requests.{McpActionRequest, has_ticket_target, reconstruct_request}
use auto_code.Contracts.Requests.Creation.{
  RequestDraft, create_request, pending_of, create_request-reconstruct_request,
}
use auto_code.Common.{
  some, ◌+◌, ◌≤◌, String, none, [], ◌∷◌, ok, err, ◌≡◌, refl, if◌then◌else◌, true, text_Eq,
}
use auto_code.Contracts.RunState.Checks.{iteration_cannot_start}
use auto_code.Contracts.Effects.{
  observation_without_invocation, note_intention, observation, insert, scan_ledger, EffectPayload,
  reconciled, awaiting_observation, lookup, validate_effect_ledger, Intentions, Phases, next_phase,
}
use auto_code.Contracts.Effects.Protocol.{
  Increasing, Life, payloads, validate_effect_ledger-Life, Life-validate_effect_ledger,
}
use auto_code.Contracts.Authorizations.{granted}
use auto_code.Contracts.Enums.{EffectOutcome}
use auto_code.Contracts.RunState.Validation.{IsValid, authorized_iteration_limit}
use auto_code.Contracts.RunState.Iterations.{
  can_start_iteration, opened, begin_iteration, begin_iteration-IsValid,
}
use auto_code.Tests.Fixtures.{
  hasher, externals, fresh, fresh-IsValid, ledger, event, intention_of, request_payload_of,
}

abbrev early : EffectPayload
early =
    observation
      (record { outcome = EffectOutcome.success; external_revision = none; evidence_refs = [] })

abbrev ledger_phases : Phases
ledger_phases = ("e1", reconciled) ∷ ("e2", awaiting_observation) ∷ []

abbrev ledger_intentions : Intentions
ledger_intentions =
    (
      "e1",
      record { effect_id = "e1"; sequence = 1; timestamp = 100; payload = request_payload_of "r1" },
    )
    ∷ (
      "e2",
      record { effect_id = "e2"; sequence = 2; timestamp = 100; payload = request_payload_of "r2" },
    )
    ∷ []

ledger_validates : validate_effect_ledger ledger ≡ ok (ledger_intentions, ledger_phases)
unfolding validate_effect_ledger scan_ledger next_phase lookup insert note_intention
ledger_validates = refl

validate_effect_ledger-Life_example :
    Increasing 0 ledger × ((id : String) → Life (payloads id ledger) (lookup id ledger_phases))
validate_effect_ledger-Life_example = validate_effect_ledger-Life ledger ledger_validates

Life-validate_effect_ledger_example :
    (r : Intentions × Phases) × (validate_effect_ledger ledger ≡ ok r)
Life-validate_effect_ledger_example =
    Life-validate_effect_ledger ledger validate_effect_ledger-Life_example.0
      (λ id. (lookup id ledger_phases, (validate_effect_ledger-Life ledger ledger_validates).1 id))

-- An observation with no invocation before it is refused.
early_observation_refused :
    validate_effect_ledger (event "e1" 1 (intention_of "r1") ∷ event "e1" 2 early ∷ [])
    ≡ err observation_without_invocation
unfolding validate_effect_ledger scan_ledger next_phase lookup insert note_intention
early_observation_refused = refl

begin_iteration-IsValid_example :
    (begin_iteration externals fresh
      ≡ (if can_start_iteration fresh then ok (opened fresh) else err iteration_cannot_start))
    × (can_start_iteration fresh ≡ true
        → IsValid externals (opened fresh)
          × (fresh.crew_iteration_count + 1 ≤ authorized_iteration_limit fresh))
begin_iteration-IsValid_example = begin_iteration-IsValid externals fresh fresh-IsValid

fresh_starts : begin_iteration externals fresh ≡ ok (opened fresh)
unfolding can_start_iteration granted
fresh_starts = begin_iteration-IsValid_example.0

abbrev draft : RequestDraft
draft = record {
  operation = "compare_and_start_ticket";
  entity = "ticket";
  target = "AC-7";
  expected_external_revision = none;
  run_id = "run-1";
  expected_revision = 4;
  expected_state_hash = "hash";
  arguments = field "ticket_id" (str "AC-7") no_more;
  effect_id = none;
}

create_request-reconstruct_request_example :
    (r : McpActionRequest) × (create_request hasher (λ r. some r) (λ t. t) "request" "effect" draft
      ≡ some r)
    × (reconstruct_request hasher (λ r. some r) (pending_of hasher r) "run-1" ≡ some r)
unfolding has_ticket_target
create_request-reconstruct_request_example =
    create_request-reconstruct_request hasher (λ r. some r) (λ t. t) "request" "effect" draft refl
      refl
