-- ===== src/Tests/State.antt =====
-- Instances for the checks of a transition.
use auto_code.Common.{none, false, ◌+◌, ◌⊎◌, true, some, [], ◌∷◌, ok, ◌≡◌, refl}
use auto_code.Contracts.Enums.{
  RunDisposition, HumanAuthorizationAction, HumanAuthorizationAction-discrete,
}
use auto_code.Contracts.Authorizations.{HumanAuthorization}
use auto_code.Contracts.RunState.{RunState}
use auto_code.Contracts.RunState.Validation.{authorized_iteration_limit}
use auto_code.Router.Routing.{route_failure, apply_route}
use auto_code.State.Transitions.{
  Verifier, is_trusted_authorization, validate_appended_authorizations,
}
use auto_code.State.Transitions.Grants.{validate_appended_authorizations-limit}
use auto_code.State.Transitions.Accepts.{Accepted, route_failure-Accepted}
use auto_code.Contracts.Json.{field, no_more, str}
use auto_code.Contracts.Requests.{McpActionRequest}
use auto_code.State.Pending.{validate_new_pending, waiting_for, waiting_for-validate_new_pending}
use auto_code.Tests.Fixtures.{hasher, externals, underway, underway-IsValid}
use auto_code.Tests.Router.{invalid_unit}

abbrev grant : HumanAuthorization
grant = record {
  authorization_id = "auth-1";
  action = HumanAuthorizationAction.resume;
  run_id = "run-1";
  challenge = "challenge";
  actor = "reviewer";
  reason = "more time";
  issued_at = 10;
  expires_at = 90;
  key_id = "key";
  signature = "signature";
  additional_iterations = 3;
  consumed_at = some 50;
}

abbrev verifier : Verifier
verifier = some (λ _ _. true)

abbrev reviewed : RunState
reviewed = record underway { disposition = RunDisposition.human_review; iteration_open = false }

abbrev resumed : RunState
resumed = record reviewed { disposition = RunDisposition.active; human_authorizations = grant ∷ [] }

accepts_grant :
    validate_appended_authorizations verifier RunDisposition.human_review RunDisposition.active
      (grant ∷ [])
    ≡ ok tt
unfolding validate_appended_authorizations HumanAuthorizationAction-discrete
accepts_grant = refl

validate_appended_authorizations-limit_example :
    (authorized_iteration_limit resumed ≡ authorized_iteration_limit reviewed)
    ⊎ ((a : HumanAuthorization) × (grant ∷ [] ≡ a ∷ [])
        × (reviewed.disposition ≡ RunDisposition.human_review)
        × (resumed.disposition ≡ RunDisposition.active)
        × (a.action ≡ HumanAuthorizationAction.resume)
        × (is_trusted_authorization verifier a a.action ≡ true)
        × (authorized_iteration_limit resumed
            ≡ authorized_iteration_limit reviewed + a.additional_iterations))
validate_appended_authorizations-limit_example =
    validate_appended_authorizations-limit verifier reviewed resumed (grant ∷ []) refl refl
      accepts_grant

route_failure-Accepted_example :
    (t : RunState) × (apply_route externals underway (route_failure underway invalid_unit) ≡ ok t)
    × Accepted underway t
route_failure-Accepted_example =
    route_failure-Accepted externals underway invalid_unit underway-IsValid refl

abbrev pub request : McpActionRequest
request = record {
  request_id = "request";
  effect_id = "effect";
  effect_hash = "effect-hash";
  operation = "compare_and_start_ticket";
  entity = "ticket";
  target = "AC-7";
  expected_external_revision = none;
  run_id = "run-1";
  expected_revision = 4;
  expected_state_hash = "hash";
  arguments = field "ticket_id" (str "AC-7") no_more;
  request_hash = "request-hash";
}

waiting_for-validate_new_pending_example :
    validate_new_pending (λ t. t) 4 "hash" underway (waiting_for hasher 1 100 request underway)
    ≡ ok tt
waiting_for-validate_new_pending_example =
    waiting_for-validate_new_pending hasher (λ t. t) 1 100 request underway
