-- ===== src/Contracts/Requests.antt =====
-- src/auto_code/contracts.py: `McpActionRequest`, and the pending request that a state persists.
-- The pattern, normalisation and secret screen of single fields are pydantic's field validation and
-- stand in `Externals.request_fields`; the model validator is written out.
pub mod Creation
use auto_code.Common.{
  ℕ, String, Option, none, some, List, [], ◌∷◌, Bool, true, false, ◌&&◌, ◌==◌, option_Eq, num_Eq,
  text_Eq, if◌then◌else◌, contains,
}
use auto_code.Contracts.Json.{
  Json, Fields, num, str, obj, field, no_more, get, Hasher, hash_json, text_or_null,
}

pub record McpActionRequest : Type 0 where
  pub request_id : String
  pub effect_id : String
  pub effect_hash : String
  pub operation : String
  pub entity : String
  pub target : String
  pub expected_external_revision : Option String
  pub run_id : String
  pub expected_revision : ℕ
  pub expected_state_hash : String
  pub arguments : Fields
  pub request_hash : String

pub record PendingExternalRequest : Type 0 where
  pub request_id : String
  pub effect_id : String
  pub request_hash : String
  pub operation : String
  pub entity : Option String
  pub target : Option String
  pub arguments : Option Fields
  pub effect_hash : Option String
  pub expected_revision : Option ℕ
  pub expected_state_hash : Option String
  pub expected_external_revision : Option String
  pub payload_hash : Option String

unfoldable pub ticket_mcp_operations : List String
ticket_mcp_operations =
    "query_ticket_projection" ∷ "query_ticket_state" ∷ "compare_and_start_ticket"
    ∷ "compare_and_complete_ticket" ∷ "restore_ticket_state" ∷ []

names_ticket : Option Json → String → Bool
names_ticket (some (str ticket_id)) target = ticket_id == target
names_ticket _ target = false

-- `validated_ticket_target` raises nothing.
unfoldable pub has_ticket_target : McpActionRequest → Bool
unfolding ticket_mcp_operations names_ticket get
has_ticket_target r =
    if contains r.operation ticket_mcp_operations
    then r.entity == "ticket" && names_ticket (get r.arguments "ticket_id") r.target
    else true

unfoldable pub effect_payload : McpActionRequest → Json
unfolding text_or_null
effect_payload r = obj (
    field "effect_id" (str r.effect_id) (
      field "operation" (str r.operation) (
        field "entity" (str r.entity) (
          field "target" (str r.target) (
            field "expected_external_revision" (text_or_null r.expected_external_revision)
              (field "arguments" (obj r.arguments) no_more))))))

unfoldable pub request_payload : McpActionRequest → Json
unfolding text_or_null
request_payload r = obj (
    field "schema_version" (str "v1") (
      field "request_id" (str r.request_id) (
        field "effect_id" (str r.effect_id) (
          field "effect_hash" (str r.effect_hash) (
            field "operation" (str r.operation) (
              field "entity" (str r.entity) (
                field "target" (str r.target) (
                  field "expected_external_revision" (text_or_null r.expected_external_revision) (
                    field "run_id" (str r.run_id) (
                      field "expected_revision" (num r.expected_revision) (
                        field "expected_state_hash" (str r.expected_state_hash)
                          (field "arguments" (obj r.arguments) no_more))))))))))))

-- `validate_request_hashes`
unfoldable pub has_request_hashes : Hasher → McpActionRequest → Bool
unfolding has_ticket_target effect_payload request_payload hash_json
has_request_hashes h r =
    has_ticket_target r
    && r.effect_hash == hash_json h (effect_payload r)
    && r.request_hash == hash_json h (request_payload r)

-- `McpActionRequest(...)`, given pydantic's validation of the fields.
unfoldable pub construct_request :
    Hasher
    → (McpActionRequest → Option McpActionRequest)
    → McpActionRequest
    → Option McpActionRequest
unfolding has_request_hashes
construct_request h request_fields r = checked (request_fields r)
  where
    checked : Option McpActionRequest → Option McpActionRequest
    checked none = none
    checked (some q) = if has_request_hashes h q then some q else none

-- The keyword arguments of the call; `none` where a required one is `None`.
unfoldable pub stored_request : PendingExternalRequest → String → Option McpActionRequest
stored_request p run_id =
    fill p.entity p.target p.arguments p.effect_hash p.expected_revision p.expected_state_hash
  where
    fill :
        Option String
        → Option String
        → Option Fields
        → Option String
        → Option ℕ
        → Option String
        → Option McpActionRequest
    fill (some entity) (some target) (some arguments) (some effect_hash) (some revision)
          (some state) =
        some (record {
          request_id = p.request_id;
          effect_id = p.effect_id;
          effect_hash = effect_hash;
          operation = p.operation;
          entity = entity;
          target = target;
          expected_external_revision = p.expected_external_revision;
          run_id = run_id;
          expected_revision = revision;
          expected_state_hash = state;
          arguments = arguments;
          request_hash = p.request_hash;
        })
    fill _ _ _ _ _ _ = none

-- `PendingExternalRequest.reconstruct_request`; `none` where it raises.
unfoldable pub reconstruct_request :
    Hasher
    → (McpActionRequest → Option McpActionRequest)
    → PendingExternalRequest
    → String
    → Option McpActionRequest
unfolding stored_request construct_request hash_json
reconstruct_request h request_fields p run_id = build (stored_request p run_id)
  where
    bound : Option McpActionRequest → Option McpActionRequest
    bound none = none
    bound (some r) = if some (hash_json h (obj r.arguments)) == p.payload_hash then some r else none

    build : Option McpActionRequest → Option McpActionRequest
    build none = none
    build (some r) = bound (construct_request h request_fields r)
