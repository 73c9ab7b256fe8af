-- ===== src/Tests/Fixtures.antt =====
-- Concrete states for the tests. The hashes are stand-ins: a hash is a text, and the externals
-- return a constant text or the value itself.
use auto_code.Common.{ℕ, String, true, Option, none, some, List, [], ◌∷◌, refl}
use auto_code.Contracts.Enums.{
  Stage-discrete, PreparationPhase-discrete, for_every_stage, Stage, FailureClass, FailureSource,
  FindingKind, EffectOutcome,
}
use auto_code.Contracts.Evidence.{Checkpoint, FailureRecord}
use auto_code.Contracts.Effects.{
  EffectEvent, EffectPayload, intention, invocation, observation, reconciliation,
  EffectIntentionPayload,
}
use auto_code.Contracts.Json.{Hasher}
use auto_code.Contracts.Externals.{Externals}
use auto_code.Contracts.RunState.{RunState, new_run_state}
use auto_code.Contracts.Authorizations.{granted}
use auto_code.Contracts.RunState.Checks.{output_of}
use auto_code.Contracts.RunState.Validation.{
  IsValid, any_binding, authorized_iteration_limit, validate_state, validate_state-IsValid,
}

abbrev pub hasher : Hasher
hasher = record { canonical_json_bytes = λ _. "{}"; sha256_hexdigest = λ t. t }

abbrev pub externals : Externals
externals = record { hasher = hasher; public_key_digest = λ k. k; request_fields = λ r. some r }

abbrev pub fresh : RunState
fresh = new_run_state "run-1" "AC-7" "repo" 2

abbrev pub checkpoint : Stage → Checkpoint
checkpoint stage = record {
  checkpoint_id = some "c1";
  stage = stage;
  contract_hash = "contract";
  input_hashes = ("upstream", "input") ∷ [];
  output_manifest_hash = "output";
  validator = "schema";
  validator_version = "v1";
  validation_receipt_hash = "receipt";
  evidence = [];
}

abbrev two_checkpoints : Stage → Option Checkpoint
two_checkpoints Stage.analyst = some (checkpoint Stage.analyst)
two_checkpoints Stage.architect_outline = some (checkpoint Stage.architect_outline)
two_checkpoints _ = none

-- An open first iteration with two bound stages.
abbrev pub underway : RunState
underway = record fresh {
  crew_iteration_count = 1;
  iteration_open = true;
  current_stage = Stage.architect_outline;
  requirements_package = some "requirements";
  change_outline = some "outline";
  checkpoints = two_checkpoints;
  stage_outputs =
      record { stage = Stage.analyst; content_hash = "output" }
      ∷ record { stage = Stage.architect_outline; content_hash = "output" }
      ∷ [];
}

pub fresh-IsValid : IsValid externals fresh
unfolding validate_state any_binding PreparationPhase-discrete Stage-discrete
    authorized_iteration_limit granted for_every_stage output_of
fresh-IsValid = (validate_state-IsValid externals fresh refl).0

pub underway-IsValid : IsValid externals underway
unfolding validate_state any_binding PreparationPhase-discrete Stage-discrete
    authorized_iteration_limit granted for_every_stage output_of
underway-IsValid = (validate_state-IsValid externals underway refl).0

abbrev pub request_payload_of : String → EffectIntentionPayload
request_payload_of request = record {
  operation = "compare_and_start_ticket";
  target = "AC-7";
  request_hash = request;
}

abbrev pub intention_of : String → EffectPayload
intention_of request = intention (request_payload_of request)

abbrev pub event : String → ℕ → EffectPayload → EffectEvent
event id n p = record { effect_id = id; sequence = n; timestamp = 100; payload = p }

-- Two effects whose events interleave.
abbrev pub ledger : List EffectEvent
ledger =
    event "e1" 1 (intention_of "r1")
    ∷ event "e2" 2 (intention_of "r2")
    ∷ event "e1" 3 (invocation 0)
    ∷ event "e1" 5 (
        observation (record {
          outcome = EffectOutcome.success;
          external_revision = none;
          evidence_refs = [];
        }))
    ∷ event "e2" 6 (invocation 0)
    ∷ event "e1" 7 (
        reconciliation
          (record { outcome = EffectOutcome.success; evidence_refs = []; receipt_hash = none }))
    ∷ []

abbrev pub failure : FailureClass → FailureSource → FindingKind → Option Stage → FailureRecord
failure c so k owner = record {
  failure_class = c;
  failure_source = so;
  finding_kind = k;
  owner_stage = owner;
  cited_ids = [];
  evidence_refs = [];
  observed_revision = none;
}
